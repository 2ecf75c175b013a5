-- ===== src/Cache/Bits.antt =====
-- bits.h and bits.c: the fields of a 32-bit address. A shift by 32 or more, or by a negative
-- number, has no defined result in C: it is `none` here.
use projects_in_c.Base.{
  ℕ, ◌+◌, ◌-◌, ◌*◌, ◌/◌, ◌%◌, ◌^◌, ◌≤◌, ◌<◌, ◌≡◌, sym, ap, ◌∙◌, Option, none, some, ltb, lt→ltb,
  true, false, if◌then◌else◌, ◌>>=◌, arith,
}
use projects_in_c.Base.Words.{word}
use projects_in_c.Base.Powers.{pow-add, pow_pos, mul-mod-mul, mod-mul-div}
use native.Mathlib.Nat.{mul-div-mul_right, mul_comm, mod-lt, mod-add-div, div-div-eq-div-mul}

-- `x << k` and `x >> k` on `unsigned`.
unfoldable pub shift_left : ℕ → ℕ → Option ℕ
shift_left x k = if ltb k 32 then some (x * 2 ^ k % word) else none

unfoldable pub shift_right : ℕ → ℕ → Option ℕ
shift_right x k = if ltb k 32 then some (x / 2 ^ k) else none

-- `32 - n`, where the result is used as a shift.
unfoldable pub bits_beside : ℕ → Option ℕ
bits_beside n = if ltb 32 n then none else some (32 - n)

unfoldable pub get_set : (set_bits block_bits address : ℕ) → Option ℕ
get_set set_bits block_bits address = bits_beside (set_bits + block_bits) >>= λ tag.
    shift_left address tag >>= λ x. shift_right x (block_bits + tag)

unfoldable pub get_line : (set_bits block_bits address : ℕ) → Option ℕ
get_line set_bits block_bits address = shift_right address (set_bits + block_bits)

unfoldable pub get_byte : (set_bits block_bits address : ℕ) → Option ℕ
get_byte set_bits block_bits address = bits_beside (set_bits + block_bits) >>= λ tag.
    let tagset : ℕ = tag + set_bits in shift_left address tagset >>= λ x. shift_right x tagset

-- A field of a word: what a shift to its top and back leaves.
pub field : (a s b t : ℕ) → s + b + t ≡ 32 → a * 2 ^ t % 2 ^ 32 / 2 ^ (b + t) ≡ a / 2 ^ b % 2 ^ s
field a s b t e =
    let split : 2 ^ 32 ≡ 2 ^ b * 2 ^ s * 2 ^ t =
      ap (λ (n : ℕ). 2 ^ n) {x = 32} (sym e)
      ∙ pow-add 2 (s + b) t
      ∙ ap (λ (x : ℕ). x * 2 ^ t) (pow-add 2 s b ∙ mul_comm (2 ^ s) (2 ^ b)) in
    ap (λ (x : ℕ). a * 2 ^ t % x / 2 ^ (b + t)) split
    ∙ ap (λ (x : ℕ). x / 2 ^ (b + t)) (mul-mod-mul a (2 ^ t) (2 ^ b * 2 ^ s) (pow_pos t))
    ∙ ap (λ (x : ℕ). a % (2 ^ b * 2 ^ s) * 2 ^ t / x) (pow-add 2 b t)
    ∙ mul-div-mul_right (a % (2 ^ b * 2 ^ s)) (2 ^ b) (pow_pos t)
    ∙ mod-mul-div a (2 ^ b) (2 ^ s) (pow_pos b)

module _ (s b a : ℕ) (small : s + b ≤ 32) where
  -- Where the geometry leaves every shift below 32, the set index is the middle field of the
  -- address.
  pub get_set_lem : 0 < s → get_set s b a ≡ some (a / 2 ^ b % 2 ^ s)
  unfolding get_set bits_beside shift_left shift_right
  get_set_lem ps =
      let t : ℕ = 32 - (s + b) in
      let low : ltb 32 (s + b) ≡ false = ground arith in
      let l : ltb t 32 ≡ true = ground arith in
      let r : ltb (b + t) 32 ≡ true = ground arith in
      rw (low, l, r) (ap some (field a s b t (omega arith)))

  pub get_byte_lem : 0 < b → get_byte s b a ≡ some (a % 2 ^ b)
  unfolding get_byte bits_beside shift_left shift_right
  get_byte_lem pb =
      let t : ℕ = 32 - (s + b) + s in
      let low : ltb 32 (s + b) ≡ false = ground arith in
      let l : ltb t 32 ≡ true = ground arith in
      let same : a * 2 ^ t % 2 ^ 32 / 2 ^ t ≡ a % 2 ^ b =
        ap (λ (n : ℕ). a * 2 ^ t % 2 ^ 32 / 2 ^ n) (omega arith)
        ∙ field a b 0 t (omega arith)
        ∙ ap (λ (x : ℕ). x % 2 ^ b) {x = a / 2 ^ 0} (omega arith) in
      rw (low, l) (ap some same)

  pub get_line_lem : s + b < 32 → get_line s b a ≡ some (a / 2 ^ (s + b))
  unfolding get_line shift_right
  get_line_lem h = rw (lt→ltb (s + b) 32 h)

-- A geometry that splits an address into three fields, with none that shifts by 32.
unfoldable pub IsGeometry : (set_bits block_bits : ℕ) → Type 0
IsGeometry s b = (0 < s) × (0 < b) × (s + b < 32)

-- The fields give the address back.
pub fields-join :
    (s b a : ℕ) → a / 2 ^ (s + b) * 2 ^ (s + b) + a / 2 ^ b % 2 ^ s * 2 ^ b + a % 2 ^ b ≡ a
fields-join s b a =
    let p : 2 ^ (s + b) ≡ 2 ^ b * 2 ^ s = pow-add 2 s b ∙ mul_comm (2 ^ s) (2 ^ b) in
    let q : a / 2 ^ (s + b) ≡ a / 2 ^ b / 2 ^ s =
      ap (λ (x : ℕ). a / x) p ∙ sym (div-div-eq-div-mul a (2 ^ b) (2 ^ s)) in
    rw (q, p)
      (omega
        (arith, mod-add-div a (2 ^ b), ap (λ (x : ℕ). 2 ^ b * x) (mod-add-div (a / 2 ^ b) (2 ^ s))))

-- With at least one set bit and one block bit, and a tag left over: the three fields are given,
-- the set and byte fields are in range, and together they make up the address again.
pub get-fields :
    (s b a : ℕ)
    → IsGeometry s b
    → (t i o : ℕ) × (get_line s b a ≡ some t)
      × (get_set s b a ≡ some i)
      × (get_byte s b a ≡ some o)
      × (i < 2 ^ s)
      × (o < 2 ^ b)
      × (t * 2 ^ (s + b) + i * 2 ^ b + o ≡ a)
unfolding IsGeometry
get-fields s b a (ps, pb, h) = (
  a / 2 ^ (s + b),
  a / 2 ^ b % 2 ^ s,
  a % 2 ^ b,
  get_line_lem s b a (omega arith) h,
  get_set_lem s b a (omega arith) ps,
  get_byte_lem s b a (omega arith) pb,
  mod-lt (a / 2 ^ b) (pow_pos s),
  mod-lt a (pow_pos b),
  fields-join s b a,
)

-- With no block bits the byte field shifts by 32, whatever the address.
pub get_byte-no_block : (s a : ℕ) → s ≤ 32 → get_byte s 0 a ≡ none
unfolding get_byte bits_beside shift_left shift_right
get_byte-no_block s a h =
    let low : ltb 32 (s + 0) ≡ false = ground arith in
    let l : ltb (32 - (s + 0) + s) 32 ≡ false = ground arith in rw (low, l)
