-- ===== src/LogFile/Whole.antt =====
-- Where fwrite(3) takes all that it is given, the file holds all that it was handed
-- (base/FileUtil.cpp, base/LogFile.cpp).
use cc_server.Prelude.{
  ℕ, ◌+◌, ◌-◌, ◌≤◌, leb, if◌then◌else◌, ◌≡◌, refl, ap, sym, ◌∙◌, inl, inr, List, [], ◌∷◌, ◌++◌,
  some, arith, concat, append_assoc, append-nil, take_of_length_le, length,
}
use cc_server.LogFile.{LogFile, AppendFile, flush, append, append_unlocked, append_all}
use cc_server.LogFile.Append.{append-Appended}

module _ (takes : ℕ → ℕ → ℕ) where
  append_whole :
      (f : AppendFile) (line : List ℕ)
      → ((call n : ℕ) → takes call n ≡ n)
      → (f' : AppendFile) × (append takes f line ≡ some f') × (f'.written ≡ f.written ++ line)
  append_whole f line full =
      let (f', e, a) = append-Appended takes f line (λ call n. omega (arith, full call n)) in
      let all : length line ≤ a.count = elim a.stopped [
        | inl done ↦ omega arith
        | inr (call, lt, nothing) ↦ omega (arith, full call (length line - a.count), a.in_line)
      ] in
      (f', e, a.written ∙ ap (λ l. f.written ++ l) (take_of_length_le a.count line all))

  append_unlocked_whole :
      (l : LogFile) (line : List ℕ)
      → ((call n : ℕ) → takes call n ≡ n)
      → (l' : LogFile) × (append_unlocked takes l line ≡ some l')
        × (l'.file.written ≡ l.file.written ++ line)
  unfolding append_unlocked flush
  append_unlocked_whole l line full =
      let (f, e, w) = append_whole l.file line full in
      (
        if leb l.flush_every (l.count + 1)
            then record l { file = flush f; count = 0 }
            else record l { file = f; count = l.count + 1 },
        ground (arith, e),
        ground (arith, w),
      )

  -- In whatever buffers the bytes come, the file holds them all, in order.
  pub append_all_whole :
      (l : LogFile) (buffers : List (List ℕ))
      → ((call n : ℕ) → takes call n ≡ n)
      → (l' : LogFile) × (append_all takes l buffers ≡ some l')
        × (l'.file.written ≡ l.file.written ++ concat buffers)
  unfolding append_all
  append_all_whole l [] full = (l, refl, sym (append-nil l.file.written))
  append_all_whole l (buffer ∷ buffers) full =
      let (l₁, e₁, w₁) = append_unlocked_whole l buffer full in
      let (l₂, e₂, w₂) = append_all_whole l₁ buffers full in
      (
        l₂,
        ground (arith, e₁, e₂),
        w₂ ∙ ap (λ x. x ++ concat buffers) w₁ ∙ append_assoc l.file.written buffer (concat buffers),
      )
