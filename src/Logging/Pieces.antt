-- ===== src/Logging/Pieces.antt =====
-- What is put to the stream of a line, and what it adds (base/Logging.h, base/LogStream.h).
use cc_server.Prelude.{
  concat, ℕ, ◌+◌, ◌-◌, ◌^◌, ◌≤◌, ◌<◌, ◌≡◌, refl, ap, sym, ◌∙◌, List, [], ◌∷◌, ◌++◌, none, some,
  arith, length, length-append, length-take, append_assoc, append-nil, if◌then◌else◌, leb,
}
use cc_server.Prelude.Outcome.{ok}
use cc_server.Prelude.Int.{abs}
use cc_server.FixedBuffer.{IsValid, contents, fixed_append_lem}
use cc_server.Decimal.Inverse.{parse}
use cc_server.LogStream.{LogStream, small_buffer, max_numeric_size, put_string, put_bool, put_char}
use cc_server.LogStream.Integers.{format_integer_lem, put_double_lem}
use cc_server.Logging.{
  Piece, string, integer, double, boolean, character, put_piece, put_pieces, put, put_all,
}

pub length-contents : (s : LogStream) → IsValid small_buffer s → length (contents s) ≡ s.cur
length-contents s (len, low) = omega (arith, length-take s.cur s.data_bytes)

-- A valid stream to which a text was put: it stands behind what was there, if that leaves `slack`
-- bytes.
pub record Adds (slack : ℕ) (s : LogStream) (text : List ℕ) (s' : LogStream) : Type 0 where
  pub valid : IsValid small_buffer s'
  pub added :
      length (contents s) + length text + slack ≤ small_buffer → contents s' ≡ contents s ++ text

pub put-Adds :
    (text : List ℕ) (s : LogStream)
    → IsValid small_buffer s
    → length text ≤ 2 ^ 31 - 1
    → (s' : LogStream) × (put text s ≡ ok s') × Adds 1 s text s'
unfolding put_string
put-Adds text s v small =
    let (s', e, w, all) = fixed_append_lem small_buffer s text v small in
    (s', e, record { valid = w; added = λ fits. all ∙ ground (arith, fits, length-contents s v) })

pub Adds-trans :
    (slack : ℕ) (s t u : LogStream) (xs ys : List ℕ)
    → Adds slack s xs t
    → Adds slack t ys u
    → Adds slack s (xs ++ ys) u
Adds-trans slack s t u xs ys a b = record {
  valid = b.valid;
  added = λ fits.
      let first = a.added (omega (arith, fits, length-append xs ys)) in
      b.added
        (omega (arith, fits, length-append xs ys, ap length first, length-append (contents s) xs))
      ∙ ap (λ l. l ++ ys) first
      ∙ append_assoc (contents s) xs ys;
}

-- Each text is shorter than 2 ^ 31 bytes.
abbrev pub AllSmall : List (List ℕ) → Type 0
AllSmall [] = Unit {0}
AllSmall (x ∷ xs) = (length x ≤ 2 ^ 31 - 1) × AllSmall xs

pub put_all-Adds :
    (pieces : List (List ℕ)) (s : LogStream)
    → IsValid small_buffer s
    → AllSmall pieces
    → (s' : LogStream) × (put_all pieces s ≡ ok s') × Adds 1 s (concat pieces) s'
put_all-Adds [] s v small =
    (s, refl, record { valid = v; added = λ fits. sym (append-nil (contents s)) })
put_all-Adds (x ∷ xs) s v (small, rest) =
    let (t, e, a) = put-Adds x s v small in
    let (u, e', b) = put_all-Adds xs t a.valid rest in
    (u, ground (arith, e, e'), Adds-trans 1 s t u x (concat xs) a b)

pub Adds-with_slack :
    (s s' : LogStream) (text : List ℕ) → Adds 1 s text s' → Adds max_numeric_size s text s'
Adds-with_slack s s' text a = record { valid = a.valid; added = λ fits. a.added (omega arith) }

-- The text that a piece stands for.
abbrev pub Shows : Piece → List ℕ → Type 0
Shows (string none) text = text ≡ b'(' ∷ b'n' ∷ b'u' ∷ b'l' ∷ b'l' ∷ b')' ∷ []
Shows (string (some written)) text = text ≡ written
Shows (integer v) text = parse text ≡ some v
Shows (double written) text = text ≡ written
Shows (boolean v) text = text ≡ (if v then b'1' ∷ [] else b'0' ∷ [])
Shows (character v) text = text ≡ v ∷ []

abbrev pub AllShow : List Piece → List (List ℕ) → Type 0
AllShow [] texts = texts ≡ []
AllShow (x ∷ xs) [] = ⊥
AllShow (x ∷ xs) (text ∷ texts) = Shows x text × AllShow xs texts

-- A text has a length of its type, an integer 64 bits, and snprintf(3) writes a floating point number
-- in 31 characters.
abbrev pub IsPiece : Piece → Type 0
IsPiece (string none) = Unit {0}
IsPiece (string (some written)) = length written ≤ 2 ^ 31 - 1
IsPiece (integer v) = abs v < 2 ^ 64
IsPiece (double written) = length written ≤ 31
IsPiece (boolean v) = Unit {0}
IsPiece (character v) = Unit {0}

abbrev pub ArePieces : List Piece → Type 0
ArePieces [] = Unit {0}
ArePieces (x ∷ xs) = IsPiece x × ArePieces xs

-- The rule that 32 bytes must be free is met where they are left behind the number.
numeric-Adds :
    (s s' : LogStream) (text : List ℕ)
    → IsValid small_buffer s
    → IsValid small_buffer s'
    → contents s' ≡ contents s ++ (if leb max_numeric_size (small_buffer - s.cur) then text else [])
    → Adds max_numeric_size s text s'
numeric-Adds s s' text v w all = record {
  valid = w;
  added = λ fits. all ∙ ground (arith, fits, length-contents s v);
}

put_piece-Adds :
    (x : Piece) (s : LogStream)
    → IsValid small_buffer s
    → IsPiece x
    → (s' : LogStream) × (text : List ℕ) × (put_piece x s ≡ ok s')
      × Shows x text
      × Adds max_numeric_size s text s'
unfolding put_string put_bool put_char
put_piece-Adds (string none) s v small =
    let null = b'(' ∷ b'n' ∷ b'u' ∷ b'l' ∷ b'l' ∷ b')' ∷ [] in
    let (s', e, a) = put-Adds null s v (omega arith) in
    (s', null, e, refl, Adds-with_slack s s' null a)
put_piece-Adds (string (some text)) s v small =
    let (s', e, a) = put-Adds text s v small in (s', text, e, refl, Adds-with_slack s s' text a)
put_piece-Adds (integer n) s v fits =
    let (s', text, e, w, reads, all, _) = format_integer_lem s n v fits in
    (s', text, e, reads, numeric-Adds s s' text v w all)
put_piece-Adds (double text) s v short =
    let (s', e, w, all) = put_double_lem s text v short in
    (s', text, e, refl, numeric-Adds s s' text v w all)
put_piece-Adds (boolean b) s v small =
    let text = if b then b'1' ∷ [] else b'0' ∷ [] in
    let (s', e, a) = put-Adds text s v (ground arith) in
    (s', text, e, refl, Adds-with_slack s s' text a)
put_piece-Adds (character c) s v small =
    let (s', e, a) = put-Adds (c ∷ []) s v (omega arith) in
    (s', c ∷ [], e, refl, Adds-with_slack s s' (c ∷ []) a)

pub put_pieces-Adds :
    (pieces : List Piece) (s : LogStream)
    → IsValid small_buffer s
    → ArePieces pieces
    → (s' : LogStream) × (shown : List (List ℕ)) × (put_pieces pieces s ≡ ok s')
      × AllShow pieces shown
      × Adds max_numeric_size s (concat shown) s'
put_pieces-Adds [] s v small =
    (s, [], refl, refl, record { valid = v; added = λ fits. sym (append-nil (contents s)) })
put_pieces-Adds (x ∷ xs) s v (small, rest) =
    let (t, text, e, shows, a) = put_piece-Adds x s v small in
    let (u, texts, e', all, b) = put_pieces-Adds xs t a.valid rest in
    (
      u,
      text ∷ texts,
      ground (arith, e, e'),
      (shows, all),
      Adds-trans max_numeric_size s t u text (concat texts) a b,
    )
