-- ===== src/Driver/Matmul/Compared.antt =====
-- What the number of errors that the loops at the end of tests/matmul_fp16_rocket.c count says.
use mathlib.Core.Option
use librocket.Prelude.{
  ℕ, suc, ◌+◌, ◌-◌, ◌*◌, ◌≤◌, ◌<◌, ◌≡◌, ◌⊎◌, inl, inr, ◌↔◌, refl, List, some, get_elem?, arith,
  false, Bool-cases,
}
use librocket.Prelude.Loops.{for_from, for_from-Keeps}
use librocket.Driver.Matmul.Layout.{Inside, load, split_before}
use librocket.Driver.Matmul.{Library, Arithmetic, output_position, compare, verify}

module _ (F : Arithmetic) (library : Library) (M N : ℕ) (output expected : List F.Float) where
  -- The element of the output and the expected one are not different.
  abbrev pub Matches : (m n : ℕ) → Type 0
  Matches m n =
      (actual : F.Float) × (wanted : F.Float) × (load output (output_position F library M N m n)
        ≡ some actual)
      × (get_elem? expected ((m - 1) * N + (n - 1)) ≡ some wanted)
      × (F.differs actual wanted ≡ false)

  -- Both arrays have the elements that are compared.
  abbrev pub Present : (m n : ℕ) → Type 0
  Present m n =
      (actual : F.Float) × (wanted : F.Float) × (load output (output_position F library M N m n)
        ≡ some actual)
      × (get_elem? expected ((m - 1) * N + (n - 1)) ≡ some wanted)

  -- No errors so far is no difference before (r, c).
  record Checked (r c errors : ℕ) : Type 0 where
    sound :
        errors ≡ 0
        → (m n : ℕ) → Inside 1 M (N - 1) m n
        → (m < r) ⊎ ((m ≡ r) × (n < c))
        → Matches m n
    complete :
        ((m n : ℕ) → Inside 1 M (N - 1) m n → (m < r) ⊎ ((m ≡ r) × (n < c)) → Matches m n)
        → errors ≡ 0

  module _ (present : (m n : ℕ) → Inside 1 M (N - 1) m n → Present m n) where
    compare-Checked :
        (r c errors : ℕ)
        → Inside 1 M (N - 1) r c
        → Checked r c errors
        → (errors' : ℕ) × (compare F library M N output expected r c errors ≡ some errors')
          × Checked r (suc c) errors'
    unfolding Option.bind
    compare-Checked r c errors m h =
        let (actual, wanted, is_actual, is_wanted) = present r c m in
        elim (Bool-cases (F.differs actual wanted)) [
          | inl differ ↦ (
            errors + 1,
            rw (is_actual, is_wanted, differ) refl,
            record {
              sound = λ none_yet. absurd (omega (arith, none_yet));
              complete = λ all.
                  let (a, b, is_a, is_b, same) = all r c m (inr (refl, omega arith)) in
                  absurd (cc (is_a, is_actual, is_b, is_wanted, same, differ));
            },
          )
          | inr same ↦ (
            errors,
            rw (is_actual, is_wanted, same) refl,
            record {
              sound = λ none_yet s d m' before. elim (split_before r c s d before) [
                | inl earlier ↦ h.sound none_yet s d m' earlier
                | inr (row, col) ↦ rw (row, col) (actual, wanted, is_actual, is_wanted, same)
              ];
              complete = λ all. h.complete (λ s d m' earlier. all s d m' (ground arith));
            },
          )
        ]

    row-Checked :
        (r errors : ℕ)
        → 1 ≤ r
        → r < 1 + M
        → Checked r 1 errors
        → (errors' : ℕ) × (for_from (compare F library M N output expected r) 1 (N - 1) errors
            ≡ some errors')
          × Checked (suc r) 1 errors'
    row-Checked r errors above below h =
        let (errors', e, checked) =
          for_from-Keeps (Checked r) (compare F library M N output expected r) 1 (N - 1)
            (1 + (N - 1)) errors refl
            (λ c o above' below' so_far.
              compare-Checked r c o (above, below, above', below') so_far)
            h in
        (
          errors',
          e,
          record {
            sound = λ none_yet s d m before. checked.sound none_yet s d m (ground arith);
            complete = λ all. checked.complete (λ s d m before. all s d m (ground arith));
          },
        )

    -- Where the output and the expected result have the elements that are compared: the
    -- verification comes to an end, and it counts no error exactly if no element differs from the
    -- expected one in any column but the last, which it leaves out.
    pub verify_lem :
        (errors : ℕ) × (verify F library M N output expected ≡ some errors)
        × ((errors ≡ 0) ↔ ((m n : ℕ) → Inside 1 M (N - 1) m n → Matches m n))
    unfolding verify
    verify_lem =
        let (errors, e, checked) =
          for_from-Keeps (λ r. Checked r 1)
            (λ m. for_from (compare F library M N output expected m) 1 (N - 1)) 1 M (1 + M) 0 refl
            row-Checked
            (record {
              sound = λ none_yet s d m before. absurd (ground arith);
              complete = λ all. refl;
            }) in
        (
          errors,
          e,
          (
            (λ none. λ s d m. checked.sound none s d m (inl m.1)),
            (λ all. checked.complete (λ s d m before. all s d m)),
          ),
        )
