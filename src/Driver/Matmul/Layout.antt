-- ===== src/Driver/Matmul/Layout.antt =====
-- A matrix laid out by two nested loops over its rows and columns, as tests/matmul_fp16_rocket.c
-- and its reference product do, whatever the positions of the elements are.
use mathlib.Core.Option
use librocket.Prelude.{
  ℕ, suc, ◌+◌, ◌*◌, ◌≤◌, ◌<◌, ◌≡◌, ◌⊎◌, inl, inr, refl, ap, sym, ◌∙◌, List, Option, none, some,
  length, get_elem?, arith,
}
use librocket.Prelude.Int.{ℤ, pos, negsuc}
use librocket.Prelude.Loops.{for_from, for_from-Keeps, put, put-Stored}

-- A store and a load at an `int` index; outside of the array the behaviour is undefined.
abbrev pub store {ℓ} : {A : Type ℓ} → List A → ℤ → A → Option (List A)
store xs (pos i) v = put xs i v
store xs (negsuc i) v = none

abbrev pub load {ℓ} : {A : Type ℓ} → List A → ℤ → Option A
load xs (pos i) = get_elem? xs i
load xs (negsuc i) = none

-- The rows and the columns of a matrix, counted from `first`.
abbrev pub Inside : (first rows cols r c : ℕ) → Type 0
Inside first rows cols r c = (first ≤ r) × (r < first + rows) × (first ≤ c) × (c < first + cols)

-- Each element has a position of its own in a buffer of rows * cols elements.
pub record Layout (first rows cols : ℕ) (position : ℕ → ℕ → ℤ) : Type 0 where
  pub slot : ℕ → ℕ → ℕ
  pub slot_of : (r c : ℕ) → Inside first rows cols r c → position r c ≡ pos (slot r c)
  pub slot_in_range : (r c : ℕ) → Inside first rows cols r c → slot r c < rows * cols
  pub slot_injective :
      (r c s d : ℕ)
      → Inside first rows cols r c
      → Inside first rows cols s d
      → slot r c ≡ slot s d
      → (r ≡ s) × (c ≡ d)

-- The elements up to and with (r, c), row by row.
pub split_before :
    (r c s d : ℕ)
    → (s < r) ⊎ ((s ≡ r) × (d < suc c))
    → ((s < r) ⊎ ((s ≡ r) × (d < c))) ⊎ ((s ≡ r) × (d ≡ c))
split_before r c s d h = ground arith

apart : (r c s d : ℕ) → (s < r) ⊎ ((s ≡ r) × (d < c)) → (s ≡ r) × (d ≡ c) → ⊥
apart r c s d h e = ground arith

module _ {ℓ} {A : Type ℓ} (position : ℕ → ℕ → ℤ) (value : ℕ → ℕ → Option A) where
  -- `out[position(r, c)] = value(r, c);`
  abbrev pub assign : (r c : ℕ) → List A → Option (List A)
  assign r c out = Option.bind (value r c) (λ v. store out (position r c) v)

  -- One row.
  abbrev pub lay_row : (first cols r : ℕ) → List A → Option (List A)
  lay_row first cols r = for_from (assign r) first cols

  -- The two loops.
  abbrev pub lay : (first rows cols : ℕ) → List A → Option (List A)
  lay first rows cols = for_from (lay_row first cols) first rows

  -- The element stands at its position.
  abbrev pub Placed : List A → ℕ → ℕ → Type ℓ
  Placed out r c = (v : A) × (value r c ≡ some v) × (load out (position r c) ≡ some v)

  module _ (first rows cols : ℕ) (L : Layout first rows cols position)
      (valued : (r c : ℕ) → Inside first rows cols r c → (v : A) × (value r c ≡ some v))
      (old : List A) (room : length old ≡ rows * cols) where
    -- The elements before (r, c), row by row.
    pub record Laid (r c : ℕ) (out : List A) : Type ℓ where
      pub length_kept : length out ≡ rows * cols
      pub placed :
          (s d : ℕ) → Inside first rows cols s d → (s < r) ⊎ ((s ≡ r) × (d < c)) → Placed out s d

    assign-Laid :
        (r c : ℕ) (out : List A)
        → Inside first rows cols r c
        → Laid r c out
        → (out' : List A) × (assign r c out ≡ some out') × Laid r (suc c) out'
    unfolding Option.bind
    assign-Laid r c out m h =
        let (v, is_v) = valued r c m in
        let (out', e, stored) =
          put-Stored out (L.slot r c) v (omega (arith, L.slot_in_range r c m, h.length_kept)) in
        (
          out',
          ap (λ x. Option.bind x (λ w. store out (position r c) w)) is_v
              ∙ ap (λ p. store out p v) (L.slot_of r c m)
              ∙ e,
          record {
            length_kept = stored.length_kept ∙ h.length_kept;
            placed = λ s d m' before. elim (split_before r c s d before) [
              | inl earlier ↦
                  let (w, is_w, there) = h.placed s d m' earlier in
                  (
                    w,
                    is_w,
                    ap (load out') (L.slot_of s d m')
                        ∙ stored.elsewhere (L.slot s d)
                            (λ same. apart r c s d earlier (L.slot_injective s d r c m' m same))
                        ∙ sym (ap (load out) (L.slot_of s d m'))
                        ∙ there,
                  )
              | inr (row, col) ↦
                  rw (row, col) (v, is_v, ap (load out') (L.slot_of r c m) ∙ stored.here)
            ];
          },
        )

    row-Laid :
        (r : ℕ) (out : List A)
        → first ≤ r
        → r < first + rows
        → Laid r first out
        → (out' : List A) × (lay_row first cols r out ≡ some out') × Laid (suc r) first out'
    row-Laid r out above below h =
        let (out', e, laid) =
          for_from-Keeps (Laid r) (assign r) first cols (first + cols) out refl
            (λ c o above' below' laid. assign-Laid r c o (above, below, above', below') laid) h in
        (
          out',
          e,
          record {
            length_kept = laid.length_kept;
            placed = λ s d m before. laid.placed s d m (ground arith);
          },
        )

    -- Where the layout gives each element a position of its own, the loops put each there.
    pub lay-Placed :
        (out : List A) × (lay first rows cols old ≡ some out)
        × (length out ≡ rows * cols)
        × ((r c : ℕ) → Inside first rows cols r c → Placed out r c)
    lay-Placed =
        let (out, e, laid) =
          for_from-Keeps (λ r. Laid r first) (lay_row first cols) first rows (first + rows) old refl
            row-Laid
            (record { length_kept = room; placed = λ r c m before. absurd (ground arith) }) in
        (out, e, laid.length_kept, λ r c m. laid.placed r c m (inl m.1))
