-- ===== src/Regcmd/Words.antt =====
-- A MESA_REGCMD word is read back as its target, value and register where the register fits 16
-- bits. Bits of a wider register number fall into the value.
use librocket.Prelude.{ℕ, ◌+◌, ◌*◌, ◌/◌, ◌%◌, ◌^◌, ◌<◌, ◌≡◌, ap, sym, ◌∙◌, arith, bits}
use librocket.Prelude.Bits.{or_add, or_high, or_one}
use librocket.Npu.Hw.{command}
use librocket.Npu.Hw.Decode.{decode}
use librocket.Regcmd.{mesa_regcmd}

pub mesa_regcmd_sum :
    (t v r : ℕ)
    → t < 2 ^ 16
    → v < 2 ^ 32
    → r < 2 ^ 16
    → mesa_regcmd t v r ≡ t * 2 ^ 48 + v * 2 ^ 16 + r
unfolding mesa_regcmd
mesa_regcmd_sum t v r ht hv hr =
    rw
      (
        or_add 48 (t * 2 ^ 48 % 2 ^ 64) (v * 2 ^ 16 % 2 ^ 64) (omega arith) (omega arith),
        or_add 16 (t * 2 ^ 48 % 2 ^ 64 + v * 2 ^ 16 % 2 ^ 64) r (omega arith) (omega arith),
      )
      (omega arith)

-- A word whose target fits 16 bits, value 32 bits and register 16 bits is read back as what it was
-- made of.
pub decode-mesa_regcmd :
    (t v r : ℕ) → t < 2 ^ 16 → v < 2 ^ 32 → r < 2 ^ 16 → decode (mesa_regcmd t v r) ≡ command t v r
unfolding decode
decode-mesa_regcmd t v r ht hv hr =
    rw (mesa_regcmd_sum t v r ht hv hr) (λ i. command (t-eq i) (v-eq i) (r-eq i))
  where
    word : ℕ
    word = t * 2 ^ 48 + v * 2 ^ 16 + r

    t-eq : bits 48 16 word ≡ t
    t-eq = omega arith

    v-eq : bits 16 32 word ≡ v
    v-eq = omega arith

    r-eq : bits 0 16 word ≡ r
    r-eq = omega arith

wide_sum :
    (t v r : ℕ)
    → t < 2 ^ 16
    → v < 2 ^ 32
    → r < 2 ^ 16
    → mesa_regcmd t v (2 ^ 16 + r) ≡ t * 2 ^ 48 + (v / 2 * 2 + 1) * 2 ^ 16 + r
unfolding mesa_regcmd
wide_sum t v r ht hv hr =
    let high : t * 2 ^ 48 % 2 ^ 64 + v * 2 ^ 16 % 2 ^ 64 ≡ (t * 2 ^ 32 + v) * 2 ^ 16 =
      omega arith in
    rw
      (
        or_add 48 (t * 2 ^ 48 % 2 ^ 64) (v * 2 ^ 16 % 2 ^ 64) (omega arith) (omega arith),
        high,
        or_high 16 (t * 2 ^ 32 + v) 1 r hr,
        or_one (t * 2 ^ 32 + v),
      )
      (omega arith)

-- For a target of 16 bits, a value of 32 bits and a register number 2 ^ 16 + r, with r of 16 bits,
-- the word loses that bit and bit 0 of the value: it is read back as the low 16 bits of the number
-- with an odd value.
pub decode-mesa_regcmd_wide :
    (t v r : ℕ)
    → t < 2 ^ 16
    → v < 2 ^ 32
    → r < 2 ^ 16
    → decode (mesa_regcmd t v (2 ^ 16 + r)) ≡ command t (v / 2 * 2 + 1) r
decode-mesa_regcmd_wide t v r ht hv hr =
    let odd : v / 2 * 2 + 1 < 2 ^ 32 = omega arith in
    ap decode (wide_sum t v r ht hv hr ∙ sym (mesa_regcmd_sum t (v / 2 * 2 + 1) r ht odd hr))
    ∙ decode-mesa_regcmd t (v / 2 * 2 + 1) r ht odd hr

-- The two values of a pair of words that differ in bit 0 alone give one word, for such a register.
pub wide_value_lost :
    (t v r : ℕ)
    → t < 2 ^ 16
    → v < 2 ^ 31
    → r < 2 ^ 16
    → mesa_regcmd t (2 * v) (2 ^ 16 + r) ≡ mesa_regcmd t (2 * v + 1) (2 ^ 16 + r)
wide_value_lost t v r ht hv hr =
    wide_sum t (2 * v) r ht (omega arith) hr
    ∙ ap (λ n. t * 2 ^ 48 + n * 2 ^ 16 + r) (omega arith)
    ∙ sym (wide_sum t (2 * v + 1) r ht (omega arith) hr)
