-- ===== src/Registers/Pack.antt =====
-- A register word is put together from the values of its fields and read back.
use librocket.Prelude.{
  ℕ, ◌+◌, ◌-◌, ◌*◌, ◌/◌, ◌%◌, ◌^◌, ◌≤◌, ◌<◌, ◌≡◌, refl, ap, sym, ◌∙◌, arith, List, [], ◌∷◌, length,
  true, ◌==◌, if◌then◌else◌, ◌bitor◌, ◌<<◌, low_mask, bits, u32, some, get_elem?, every_get,
  digit_bound, radix_div, radix_mod, pow_add,
}
use mathlib.Core.Path.{ap₂}
use librocket.Prelude.Bits.{or_add, and_mask, and_high}
use native.Mathlib.Nat.{one-le-pow, div-add-mod', mod-lt}
use librocket.Registers.{Field, masked, flag, Reg, place}
use librocket.Registers.Table.{registers, tiles, tile, registers-tile}

pow_pos : (k : ℕ) → 0 < 2 ^ k
pow_pos k = one-le-pow k 2 (omega arith)

-- A remainder by 2 ^ (h + w), by 2 ^ w.
mod-mod_pow : (h w v : ℕ) → v % 2 ^ (h + w) % 2 ^ w ≡ v % 2 ^ w
mod-mod_pow h w v =
    let big = 2 ^ (h + w) in
    let whole : v ≡ v / big * 2 ^ h * 2 ^ w + v % big =
      omega (arith, div-add-mod' v big, ap (λ (t : ℕ). v / big * t) (pow_add h w)) in
    let part : v % big ≡ v % big / 2 ^ w * 2 ^ w + v % big % 2 ^ w =
      omega (arith, div-add-mod' (v % big) (2 ^ w)) in
    let regrouped : v ≡ (v / big * 2 ^ h + v % big / 2 ^ w) * 2 ^ w + v % big % 2 ^ w =
      omega (arith, whole, part) in
    sym (
      ap (λ (t : ℕ). t % 2 ^ w) regrouped
      ∙ radix_mod (2 ^ w) _ (v % big % 2 ^ w) (mod-lt (v % big) (pow_pos w)))

-- A remainder by 2 ^ (h + s) of a multiple of 2 ^ s.
mod_high : (h s v : ℕ) → v * 2 ^ s % 2 ^ (h + s) ≡ v % 2 ^ h * 2 ^ s
mod_high h s v =
    let q = v / 2 ^ h in
    let r = v % 2 ^ h in
    let parts : v * 2 ^ s ≡ q * 2 ^ (h + s) + r * 2 ^ s = omega (
      arith,
      ap (λ (t : ℕ). t * 2 ^ s) (div-add-mod' v (2 ^ h)),
      ap (λ (t : ℕ). q * t) (pow_add h s),
    ) in
    let small : r * 2 ^ s < 2 ^ (h + s) =
      omega
        (arith, pow_add h s, digit_bound (2 ^ s) (2 ^ h) r 0 (mod-lt v (pow_pos h)) (pow_pos s)) in
    ap (λ (t : ℕ). t % 2 ^ (h + s)) parts ∙ radix_mod (2 ^ (h + s)) q (r * 2 ^ s) small

less_one : (w : ℕ) → 2 ^ w ≡ low_mask w + 1
less_one w = omega (arith, pow_pos w)

-- A value in a field of width w from bit s on, in a word of 32 bits.
masked_lem :
    (h w s v : ℕ) → h + w + s ≡ 32 → place (masked (2 ^ (w + s) - 2 ^ s) s) v ≡ v % 2 ^ w * 2 ^ s
unfolding place
masked_lem h w s v e =
    let mask : 2 ^ (w + s) - 2 ^ s ≡ low_mask w * 2 ^ s =
      omega (arith, pow_add w s, ap (λ (t : ℕ). t * 2 ^ s) (less_one w)) in
    let cut : u32 (v << s) ≡ v % 2 ^ (h + w) * 2 ^ s =
      ap (λ (t : ℕ). v * 2 ^ s % 2 ^ t) (sym e) ∙ mod_high (h + w) s v in
    rw (mask, cut)
      (and_high s (v % 2 ^ (h + w)) (low_mask w)
        ∙ ap (λ (t : ℕ). t * 2 ^ s) (and_mask w (v % 2 ^ (h + w)) ∙ mod-mod_pow h w v))

-- The word for the values of the fields, as the code writes it: the parts joined by `|`. The
-- constant of a flag is there where its value is not 0.
unfoldable pub pack : List Field → List ℕ → ℕ
pack (masked mask shift ∷ fs) (v ∷ vs) = place (masked mask shift) v bitor pack fs vs
pack (flag bit ∷ fs) (v ∷ vs) = (if v == 0 then 0 else place (flag bit) v) bitor pack fs vs
pack _ _ = 0

-- The bits of the word from each shift up to the field above.
unfoldable pub unpack : (top : ℕ) → List Field → ℕ → List ℕ
unpack top [] word = []
unpack top (masked mask shift ∷ fs) word = bits shift (top - shift) word ∷ unpack shift fs word
unpack top (flag bit ∷ fs) word = bits (top - 1) 1 word ∷ unpack (top - 1) fs word

-- What of the values fits the fields.
unfoldable pub cut : (top : ℕ) → List Field → List ℕ → List ℕ
cut top (masked mask shift ∷ fs) (v ∷ vs) = (v % 2 ^ (top - shift)) ∷ cut shift fs vs
cut top (flag bit ∷ fs) (v ∷ vs) = (if v == 0 then 0 else 1) ∷ cut (top - 1) fs vs
cut top _ _ = []

-- A word whose bits from s on are x, of width w, on top of rest, and hi above.
step_lem :
    (s w hi x rest : ℕ)
    → x < 2 ^ w
    → rest < 2 ^ s
    → (bits s w (hi * 2 ^ (w + s) + (x * 2 ^ s + rest)) ≡ x)
      × (hi * 2 ^ (w + s) + (x * 2 ^ s + rest) ≡ (hi * 2 ^ w + x) * 2 ^ s + rest)
      × (x * 2 ^ s + rest < 2 ^ (w + s))
step_lem s w hi x rest hx hr =
    let whole : hi * 2 ^ (w + s) + (x * 2 ^ s + rest) ≡ (hi * 2 ^ w + x) * 2 ^ s + rest =
      omega (arith, ap (λ (t : ℕ). hi * t) (pow_add w s)) in
    (
      rw whole (
          ap (λ (t : ℕ). t % 2 ^ w) (radix_div (2 ^ s) (hi * 2 ^ w + x) rest hr)
          ∙ radix_mod (2 ^ w) hi x hx),
      whole,
      omega (arith, pow_add w s, digit_bound (2 ^ s) (2 ^ w) x rest hx hr),
    )

-- So the word with the parts joined by `|`.
field_case :
    (top s w hi x rest part : ℕ)
    → w + s ≡ top
    → part ≡ x * 2 ^ s
    → x < 2 ^ w
    → rest < 2 ^ s
    → (bits s w (hi * 2 ^ top + (part bitor rest)) ≡ x)
      × (hi * 2 ^ top + (part bitor rest) ≡ (hi * 2 ^ w + x) * 2 ^ s + rest)
      × (part bitor rest < 2 ^ top)
field_case top s w hi x rest part whole e hx hr =
    let clear : x * 2 ^ s % 2 ^ s ≡ 0 =
      ap (λ (t : ℕ). t % 2 ^ s) (omega arith) ∙ radix_mod (2 ^ s) x 0 (pow_pos s) in
    let joined : part bitor rest ≡ x * 2 ^ s + rest =
      ap (λ (t : ℕ). t bitor rest) e ∙ or_add s (x * 2 ^ s) rest clear hr in
    rw (joined, sym whole) (step_lem s w hi x rest hx hr)

-- What the tiling says of the first field.
masked_tiles :
    (top mask shift : ℕ) (fs : List Field)
    → tiles top (masked mask shift ∷ fs) ≡ true
    → (shift < top) × (mask ≡ 2 ^ top - 2 ^ shift) × (tiles shift fs ≡ true)
masked_tiles top mask shift fs h = ground arith

flag_tiles :
    (top bit : ℕ) (fs : List Field)
    → tiles top (flag bit ∷ fs) ≡ true
    → (0 < top) × (bit ≡ 2 ^ (top - 1)) × (tiles (top - 1) fs ≡ true)
flag_tiles top bit fs h = ground arith

pub unpack-pack :
    (top : ℕ) (fs : List Field) (vs : List ℕ) (hi : ℕ)
    → tiles top fs ≡ true
    → top ≤ 32
    → length vs ≡ length fs
    → (unpack top fs (hi * 2 ^ top + pack fs vs) ≡ cut top fs vs) × (pack fs vs < 2 ^ top)
unfolding unpack pack cut
unpack-pack top [] [] hi h fits e = (refl, pow_pos top)
unpack-pack top [] (v ∷ vs) hi h fits e = absurd (omega arith)
unpack-pack top (masked mask s ∷ fs) [] hi h fits e = absurd (omega arith)
unpack-pack top (flag bit ∷ fs) [] hi h fits e = absurd (omega arith)
unpack-pack top (masked mask s ∷ fs) (v ∷ vs) hi h fits e =
    let (below, mask-eq, rest-h) = masked_tiles top mask s fs h in
    let w = top - s in
    let top-eq : w + s ≡ top = omega arith in
    let part : place (masked mask s) v ≡ v % 2 ^ w * 2 ^ s =
      ap (λ (m : ℕ). place (masked m s) v) (mask-eq ∙ ap (λ (t : ℕ). 2 ^ t - 2 ^ s) (sym top-eq))
      ∙ masked_lem (32 - top) w s v (omega arith) in
    let (ih, small) =
      unpack-pack s fs vs (hi * 2 ^ w + v % 2 ^ w) rest-h (omega arith) (omega arith) in
    let (read, word, bound) =
      field_case top s w hi (v % 2 ^ w) (pack fs vs) (place (masked mask s) v) top-eq part
        (mod-lt v (pow_pos w)) small in
    (ap₂ ◌∷◌ read (ap (unpack s fs) word ∙ ih), bound)
unpack-pack top (flag bit ∷ fs) (v ∷ vs) hi h fits e =
    let (some_bit, bit-eq, rest-h) = flag_tiles top bit fs h in
    let s = top - 1 in
    let x : ℕ = if v == 0 then 0 else 1 in
    let part : (if v == 0 then 0 else place (flag bit) v) ≡ x * 2 ^ s =
      unfold place in ground arith in
    let (ih, small) = unpack-pack s fs vs (hi * 2 ^ 1 + x) rest-h (omega arith) (omega arith) in
    let (read, word, bound) =
      field_case top s 1 hi x (pack fs vs) _ (omega arith) part (ground arith) small in
    (ap₂ ◌∷◌ read (ap (unpack s fs) word ∙ ih), bound)

-- For each register of the header and a value for each of its fields: the word that the fields'
-- functions make of the values, joined by `|`, has each value, cut to the width of its field, in
-- the bits of that field.
pub register_unpack-pack :
    (i : ℕ) (r : Reg) (vs : List ℕ)
    → get_elem? registers i ≡ some r
    → length vs ≡ length r.fields
    → unpack 32 r.fields (pack r.fields vs) ≡ cut 32 r.fields vs
register_unpack-pack i r vs e l =
    ap (unpack 32 r.fields) (omega arith)
    ∙ (unpack-pack 32 r.fields vs 0 (every_get tile registers i r registers-tile.0 e) (omega arith)
        l).0
