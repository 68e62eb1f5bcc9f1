-- ===== src/Prelude/Map.antt =====
-- Finite maps by number: a function, changed at one key.
use cc_server.Prelude.{ℕ, ◌==◌, if◌then◌else◌}

abbrev pub update {ℓ} : {A : Type ℓ} → (ℕ → A) → ℕ → A → ℕ → A
update f k a j = if k == j then a else f j
