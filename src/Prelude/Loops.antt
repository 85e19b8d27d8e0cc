-- ===== src/Prelude/Loops.antt =====
-- Counting loops whose body can fail, and stores into an array.
use mathlib.Core.Option
use librocket.Prelude.Lists.{length, get_elem?}
use Prim.Native.Nat.{ℕ, zero, suc, ◌+◌, ◌≤◌, ◌<◌}
use mathlib.Core.Path.{subst, ◌≡◌, refl, ap, ◌∙◌}
use mathlib.Core.Logic.{◌≢◌}
use mathlib.Core.Option.{Option, none, some}
use mathlib.Core.List.{List, [], ◌∷◌}
use native.Mathlib.Omega.{arith}

module _ {ℓ} {S : Type ℓ} where
  -- `for (i = first; i < first + count; i++) s = body(i, s)`.
  abbrev pub for_from : (ℕ → S → Option S) → (first count : ℕ) → S → Option S
  for_from body i zero s = some s
  for_from body i (suc n) s = Option.bind (body i s) (for_from body (suc i) n)

  -- A body that keeps an invariant from one count up to another.
  abbrev pub Keeps {κ} :
      (P : ℕ → S → Type κ) (body : ℕ → S → Option S) (first end : ℕ) → Type (ℓ ⊔ κ)
  Keeps P body first end =
      (i : ℕ) (s : S) → first ≤ i → i < end → P i s → (s' : S) × (body i s ≡ some s') × P (suc i) s'

  pub for_from-Keeps {κ} :
      (P : ℕ → S → Type κ) (body : ℕ → S → Option S) (first count end : ℕ) (s : S)
      → first + count ≡ end
      → Keeps P body first end
      → P first s
      → (s' : S) × (for_from body first count s ≡ some s') × P end s'
  unfolding Option.bind
  for_from-Keeps P body i zero end s e keeps h =
      (s, refl, subst (λ (t : ℕ). P t s) (omega (arith, e)) h)
  for_from-Keeps P body i (suc n) end s e keeps h =
      let (t, step, next) = keeps i s (omega arith) (omega arith) h in
      let (u, rest, last) =
        for_from-Keeps P body (suc i) n end t (omega arith)
          (λ j r above below. keeps j r (omega (arith, above)) below) next in
      (u, ap (λ r. Option.bind r (for_from body (suc i) n)) step ∙ rest, last)

  pub bind_cong :
      (r : Option S) (f g : S → Option S)
      → ((s : S) → f s ≡ g s)
      → Option.bind r f ≡ Option.bind r g
  unfolding Option.bind
  bind_cong none f g same = refl
  bind_cong (some s) f g same = same s

  -- Bodies that agree on the counts of the loop.
  pub for_from_cong :
      (f g : ℕ → S → Option S) (first count : ℕ) (s : S)
      → ((i : ℕ) (t : S) → first ≤ i → i < first + count → f i t ≡ g i t)
      → for_from f first count s ≡ for_from g first count s
  unfolding Option.bind
  for_from_cong f g i zero s same = refl
  for_from_cong f g i (suc n) s same =
      ap (λ r. Option.bind r (for_from f (suc i) n)) (same i s (omega arith) (omega arith))
      ∙ bind_cong (g i s) (for_from f (suc i) n) (for_from g (suc i) n) (λ t.
        for_from_cong f g (suc i) n t (λ j u above below. same j u (omega arith) (omega arith)))

module _ {ℓ} {A : Type ℓ} where
  -- `memset`: n elements of one value.
  abbrev pub filled : ℕ → A → List A
  filled zero v = []
  filled (suc n) v = v ∷ filled n v

  pub length-filled : (n : ℕ) (v : A) → length (filled n v) ≡ n
  length-filled zero v = refl
  length-filled (suc n) v = ap suc (length-filled n v)

  -- `xs[i] = v`; `none` is a store beyond the end.
  abbrev pub put : List A → ℕ → A → Option (List A)
  put [] i v = none
  put (x ∷ xs) zero v = some (v ∷ xs)
  put (x ∷ xs) (suc i) v = Option.map (λ ys. x ∷ ys) (put xs i v)

  -- What a store does: the other elements stay.
  pub record Stored (xs ys : List A) (i : ℕ) (v : A) : Type ℓ where
    pub length_kept : length ys ≡ length xs
    pub here : get_elem? ys i ≡ some v
    pub elsewhere : (j : ℕ) → j ≢ i → get_elem? ys j ≡ get_elem? xs j

  pub put-Stored :
      (xs : List A) (i : ℕ) (v : A)
      → i < length xs
      → (ys : List A) × (put xs i v ≡ some ys) × Stored xs ys i v
  put-Stored [] i v h = absurd (omega arith)
  put-Stored (x ∷ xs) zero v h =
      (v ∷ xs, refl, record { length_kept = refl; here = refl; elsewhere = beside })
    where
      beside : (j : ℕ) → j ≢ 0 → get_elem? (v ∷ xs) j ≡ get_elem? (x ∷ xs) j
      beside zero ne = absurd (ne refl)
      beside (suc j) ne = refl
  put-Stored (x ∷ xs) (suc i) v h =
      let (ys, e, stored) = put-Stored xs i v (omega arith) in
      (
        x ∷ ys,
        ap (Option.map (λ zs. x ∷ zs)) e,
        record {
          length_kept = ap suc stored.length_kept;
          here = stored.here;
          elsewhere = beside ys stored;
        },
      )
    where
      beside :
          (ys : List A) (stored : Stored xs ys i v) (j : ℕ)
          → j ≢ suc i
          → get_elem? (x ∷ ys) j ≡ get_elem? (x ∷ xs) j
      beside ys stored zero ne = refl
      beside ys stored (suc j) ne = stored.elsewhere j (λ e. ne (ap suc e))

  pub get_some : (xs : List A) (i : ℕ) → i < length xs → (x : A) × (get_elem? xs i ≡ some x)
  get_some [] i h = absurd (omega arith)
  get_some (x ∷ xs) zero h = (x, refl)
  get_some (x ∷ xs) (suc i) h = get_some xs i (omega arith)
