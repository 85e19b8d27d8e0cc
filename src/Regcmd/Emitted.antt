-- ===== src/Regcmd/Emitted.antt =====
-- What a sequence of `regcmd[idx++] = word` leaves in the buffer.
use librocket.Prelude.{
  ℕ, ◌+◌, ◌≤◌, ◌≡◌, refl, ap, ◌∙◌, List, [], ◌∷◌, ◌++◌, some, none, arith, length, length-append,
  Bool, Bool-cases, inl, inr, true, false, ltb, ltb→lt, le→ltb, if◌then◌else◌, ◌<◌, drop, lt→ltb,
}
use mathlib.Core.Path.{ap₂}
use mathlib.Core.Option
use mathlib.Core.List.{append_assoc}
use librocket.Regcmd.{set, emit, emit_all, start}

set-append :
    (done rest : List ℕ) (x w : ℕ) → set (done ++ (x ∷ rest)) (length done) w ≡ done ++ (w ∷ rest)
set-append [] rest x w = refl
set-append (y ∷ done) rest x w = ap (λ t. y ∷ t) (set-append done rest x w)

emit-ok :
    (done rest : List ℕ) (x w i : ℕ)
    → i ≡ length done
    → emit w (record { regcmd = done ++ (x ∷ rest); idx = i })
      ≡ some (record { regcmd = (done ++ (w ∷ [])) ++ rest; idx = i + 1 })
unfolding emit
emit-ok done rest x w i h =
    rw
      (
        h,
        lt→ltb (length done) (length (done ++ (x ∷ rest)))
            (omega (arith, length-append done (x ∷ rest))),
        set-append done rest x w,
        append_assoc,
      )
      refl

emit_all-ok :
    (words done rest : List ℕ) (i : ℕ)
    → i ≡ length done
    → length words ≤ length rest
    → emit_all words (record { regcmd = done ++ rest; idx = i })
      ≡ some
          (record { regcmd = done ++ (words ++ drop (length words) rest); idx = i + length words })
unfolding emit_all Option.bind
emit_all-ok [] done rest i h room =
    ap (λ n. some (record { regcmd = done ++ rest; idx = n })) (omega arith)
emit_all-ok (w ∷ words) done [] i h room = absurd (omega arith)
emit_all-ok (w ∷ words) done (x ∷ rest) i h room =
    ap (λ o. Option.bind o (emit_all words)) (emit-ok done rest x w i h)
    ∙ emit_all-ok words (done ++ (w ∷ [])) rest (i + 1) (omega (arith, length-append done (w ∷ [])))
        (omega arith)
    ∙ ap₂ (λ l n. some (record { regcmd = l; idx = n }))
        (append_assoc done (w ∷ []) (words ++ drop (length words) rest)) (omega arith)

-- Emitted from the start into a buffer that has room for them, the words stand in front, the rest
-- of the buffer stays as it was, and `idx` is their number.
pub emit_all-start :
    (words tasks : List ℕ)
    → length words ≤ length tasks
    → emit_all words (start tasks)
      ≡ some (record { regcmd = words ++ drop (length words) tasks; idx = length words })
emit_all-start words tasks room =
    emit_all-ok words [] tasks 0 refl room
    ∙ ap (λ n. some (record { regcmd = words ++ drop (length words) tasks; idx = n })) (omega arith)

emit_all_short :
    (words done rest : List ℕ) (i : ℕ)
    → i ≡ length done
    → length rest < length words
    → emit_all words (record { regcmd = done ++ rest; idx = i }) ≡ none
unfolding emit_all emit Option.bind
emit_all_short [] done rest i h short = absurd (omega arith)
emit_all_short (w ∷ words) done [] i h short =
    let full : ltb i (length (done ++ [])) ≡ false =
      le→ltb i (length (done ++ [])) (omega (arith, length-append done [])) in
    rw full refl
emit_all_short (w ∷ words) done (x ∷ rest) i h short =
    ap (λ o. Option.bind o (emit_all words)) (emit-ok done rest x w i h)
    ∙ emit_all_short words (done ++ (w ∷ [])) rest (i + 1)
        (omega (arith, length-append done (w ∷ []))) (omega arith)

-- The words are written from the start of the buffer, and the rest of it stays as it was, where
-- they fit; where they do not, the code writes beyond its end.
pub emit_all_lem :
    (words tasks : List ℕ)
    → emit_all words (start tasks) ≡ (
        if ltb (length tasks) (length words)
        then none
        else some (record { regcmd = words ++ drop (length words) tasks; idx = length words }))
emit_all_lem words tasks = elim (Bool-cases (ltb (length tasks) (length words))) [
  | inl short ↦
      rw short (emit_all_short words [] tasks 0 refl (ltb→lt (length tasks) (length words) short))
  | inr fits ↦ rw fits (emit_all-start words tasks (ground arith))
]

pub map-if {ℓ κ} :
    {A : Type ℓ} {B : Type κ} (f : A → B) (b : Bool) (x : A)
    → Option.map f (if b then none else some x) ≡ (if b then none else some (f x))
map-if f true x = refl
map-if f false x = refl
