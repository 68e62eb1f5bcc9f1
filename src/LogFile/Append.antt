-- ===== src/LogFile/Append.antt =====
-- `append` ends, and writes a line as far as fwrite(3) goes on taking it (base/FileUtil.cpp).
use cc_server.Prelude.{
  ℕ, zero, suc, ◌+◌, ◌-◌, ◌≤◌, ◌<◌, ◌≡◌, ap, sym, ◌∙◌, ◌⊎◌, inl, inr, List, ◌++◌, some, arith,
  length, take, drop, length-drop, append_assoc, append-nil, ℕ_discrete,
}
use cc_server.Prelude.Slices.{take-add}
use cc_server.LogFile.{AppendFile, write, append_rest, append}

module _ (takes : ℕ → ℕ → ℕ) where
  -- The file after `k` bytes of the line were written: all of it, or all that fwrite(3) took before
  -- it took none.
  pub record Appended (f : AppendFile) (line : List ℕ) (f' : AppendFile) : Type 0 where
    pub count : ℕ
    pub in_line : count ≤ length line
    pub written : f'.written ≡ f.written ++ take count line
    pub stopped :
        (count ≡ length line)
        ⊎ ((call : ℕ) × (call < f'.calls) × (takes call (length line - count) ≡ 0))

  -- A write of some bytes, and then the others.
  continued :
      (f f' : AppendFile) (line : List ℕ) (n : ℕ)
      → n ≤ length line
      → Appended
          (record f { written = f.written ++ take n line; calls = f.calls + 1 })
          (drop n line)
          f'
      → Appended f line f'
  continued f f' line n h a = record {
    count = n + a.count;
    in_line = omega (arith, a.in_line, length-drop n line);
    written =
        a.written
        ∙ append_assoc f.written (take n line) (take a.count (drop n line))
        ∙ ap (λ l. f.written ++ l) (sym (take-add n a.count line));
    stopped = elim a.stopped [
      | inl all ↦ inl (omega (arith, length-drop n line))
      | inr (call, lt, none_taken) ↦
          inr (call, lt, ap (takes call) (omega (arith, length-drop n line)) ∙ none_taken)
    ];
  }

  -- A round on nothing, and one in which nothing is taken, are the last.
  last_round :
      (fuel : ℕ) (f : AppendFile) (line : List ℕ)
      → (length line ≡ 0) ⊎ (takes f.calls (length line) ≡ 0)
      → (f' : AppendFile) × (append_rest takes (suc fuel) f line ≡ some f') × Appended f line f'
  unfolding append_rest write
  last_round fuel f line h = elim (ℕ_discrete (length line) 0) [
    | yes done ↦ (
      f,
      ground (arith, done),
      record {
        count = 0;
        in_line = omega arith;
        written = sym (append-nil f.written);
        stopped = inl (sym done);
      },
    )
    | no more ↦
        let nothing : takes f.calls (length line) ≡ 0 = elim h [
          | inl done ↦ absurd (more done)
          | inr e ↦ e
        ] in
        (
          record f {
            written = f.written ++ take (takes f.calls (length line)) line;
            calls = f.calls + 1;
          },
          ground (arith, more, nothing),
          record {
            count = 0;
            in_line = omega arith;
            written = ap (λ n. f.written ++ take n line) nothing;
            stopped = inr (f.calls, omega arith, ap (takes f.calls) (omega arith) ∙ nothing);
          },
        )
  ]

  append_rest_lem :
      (fuel : ℕ) (f : AppendFile) (line : List ℕ)
      → ((call n : ℕ) → takes call n ≤ n)
      → length line ≤ fuel
      → (f' : AppendFile) × (append_rest takes (suc fuel) f line ≡ some f') × Appended f line f'
  unfolding append_rest write
  append_rest_lem zero f line bounded h = last_round zero f line (inl (omega arith))
  append_rest_lem (suc fuel) f line bounded h = elim (ℕ_discrete (length line) 0) [
    | yes done ↦ last_round (suc fuel) f line (inl done)
    | no more ↦ elim (ℕ_discrete (takes f.calls (length line)) 0) [
      | yes nothing ↦ last_round (suc fuel) f line (inr nothing)
      | no progress ↦
          let n = takes f.calls (length line) in
          let next : AppendFile = record f {
            written = f.written ++ take n line;
            calls = f.calls + 1;
          } in
          let (f', e, a) =
            append_rest_lem fuel next (drop n line) bounded
              (omega (arith, length-drop n line, bounded f.calls (length line))) in
          (
            f',
            ground (arith, e, more, progress),
            continued f f' line n (bounded f.calls (length line)) a,
          )
    ]
  ]

  -- `AppendFile::append` ends, whatever fwrite(3) takes, if no more than it is given: what it wrote
  -- is the line, or the beginning of the line after which fwrite(3) took nothing.
  pub append-Appended :
      (f : AppendFile) (line : List ℕ)
      → ((call n : ℕ) → takes call n ≤ n)
      → (f' : AppendFile) × (append takes f line ≡ some f') × Appended f line f'
  unfolding append write
  append-Appended f line bounded =
      let n = takes f.calls (length line) in
      let next : AppendFile = record f {
        written = f.written ++ take n line;
        calls = f.calls + 1;
      } in
      let (f', e, a) =
        append_rest_lem (length line) next (drop n line) bounded
          (omega (arith, length-drop n line)) in
      (f', e, continued f f' line n (bounded f.calls (length line)) a)
