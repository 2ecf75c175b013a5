-- ===== src/Cache/Sim/Access.antt =====
-- cache.c, `cache_access`: an access is one to the set's bounded list of tags, and marks its byte.
use projects_in_c.Base.{
  ℕ, ◌+◌, ◌/◌, ◌%◌, ◌^◌, ◌<◌, ◌≡◌, refl, ap, ◌∙◌, inl, inr, List, some, get_elem?, set, length,
  length-set, get_elem?-set_self, get_elem?-set_ne, arith, ◌==◌, ==_iff, Bool-cases, if◌then◌else◌,
}
use projects_in_c.Base.Powers.{pow_pos}
use native.Mathlib.Nat.{mod-lt}
use projects_in_c.Cache.Bits.{IsGeometry, get_set_lem, get_line_lem, get_byte_lem}
use projects_in_c.Cache.Lru.{AccessResult, Line, LineSet}
use projects_in_c.Cache.Lru.Spec.{use_tag}
use projects_in_c.Cache.Lru.Walk.{get-lt}
use projects_in_c.Cache.Lru.Refine.{Represents, lru_fetch_lem}
use projects_in_c.Cache.Sim.{Cache, cache_access}
use projects_in_c.Cache.Sim.Touch.{brought, length-brought, touch_lem, written-Represents}

-- The cache stands for the lists `tags` of the tags of its sets.
pub record IsCache (c : Cache) (tags : ℕ → List ℕ) : Type 0 where
  pub geometry : IsGeometry c.set_bits c.block_bits
  pub lines : 0 < c.line_count
  pub size : length c.sets ≡ 2 ^ c.set_bits
  pub block : c.block_size ≡ 2 ^ c.block_bits
  pub sets :
      (i : ℕ)
      → i < length c.sets
      → (s : LineSet) × (get_elem? c.sets i ≡ some s)
        × Represents c.line_count c.block_size s (tags i)

-- One set has changed, and its list of tags.
change-sets :
    (n size : ℕ) (ss : List LineSet) (x : ℕ) (now : LineSet) (tags : ℕ → List ℕ) (us : List ℕ)
    → x < length ss
    → ((i : ℕ)
        → i < length ss
        → (s : LineSet) × (get_elem? ss i ≡ some s) × Represents n size s (tags i))
    → Represents n size now us
    → (i : ℕ) → i < length (set ss x now)
    → (s : LineSet) × (get_elem? (set ss x now) i ≡ some s)
      × Represents n size s (if i == x then us else tags i)
change-sets n size ss x now tags us lt old p i h = elim (Bool-cases (i == x)) [
  | inl same ↦ (
    now,
    ap (λ (j : ℕ). get_elem? (set ss x now) j) ((==_iff i x).0 same)
        ∙ get_elem?-set_self ss x now lt,
    rw same p,
  )
  | inr other ↦
      let (s, e, q) = old i (omega (arith, length-set ss x now)) in
      (s, get_elem?-set_ne ss now (λ eq. ground (arith, eq)) ∙ e, rw other q)
]

-- The fields of an address.
abbrev pub set_of : Cache → ℕ → ℕ
set_of c a = a / 2 ^ c.block_bits % 2 ^ c.set_bits

abbrev pub tag_of : Cache → ℕ → ℕ
tag_of c a = a / 2 ^ (c.set_bits + c.block_bits)

abbrev pub byte_of : Cache → ℕ → ℕ
byte_of c a = a % 2 ^ c.block_bits

-- The lists of tags, and the kind of access, when the address `a` is used, with `s` set bits, `n`
-- lines in a set and `b` block bits.
abbrev pub use_at : (s n b : ℕ) → (ℕ → List ℕ) → ℕ → (ℕ → List ℕ) × AccessResult
use_at s n b tags a =
    let used : List ℕ × AccessResult = use_tag n (tags (a / 2 ^ b % 2 ^ s)) (a / 2 ^ (s + b)) in
    (λ i. if i == a / 2 ^ b % 2 ^ s then used.0 else tags i, used.1)

abbrev pub use_address : Cache → (ℕ → List ℕ) → ℕ → (ℕ → List ℕ) × AccessResult
use_address c tags a = use_at c.set_bits c.line_count c.block_bits tags a

-- The line that an access has touched, and how its block was before and is after.
pub record Touched (c c' : Cache) (a : ℕ) (r : AccessResult) : Type 0 where
  pub old : LineSet
  pub new : LineSet
  pub old_set : get_elem? c.sets (set_of c a) ≡ some old
  pub new_set : get_elem? c'.sets (set_of c a) ≡ some new
  pub at : ℕ
  pub before : Line
  pub after : Line
  pub old_line : get_elem? old.lines at ≡ some before
  pub new_line : get_elem? new.lines at ≡ some after
  pub valid : after.valid ≡ 1
  pub tag : after.tag ≡ tag_of c a
  pub block : after.accessed ≡ set (brought r c.block_size before.accessed) (byte_of c a) 1

-- An access leaves the cache's geometry as it is.
pub record SameShape (c c' : Cache) : Type 0 where
  pub set_bits : c'.set_bits ≡ c.set_bits
  pub block_bits : c'.block_bits ≡ c.block_bits
  pub line_count : c'.line_count ≡ c.line_count

module _ (c : Cache) (tags : ℕ → List ℕ) (a : ℕ) (k : IsCache c tags) where
  set_of-lt : set_of c a < length c.sets
  set_of-lt = rw k.size (mod-lt (a / 2 ^ c.block_bits) (pow_pos c.set_bits))

  byte_of-lt : byte_of c a < c.block_size
  byte_of-lt = rw k.block (mod-lt a (pow_pos c.block_bits))

  -- On a cache with lines, set bits and block bits, and a tag left of the address, an access never
  -- faults. Hit or miss is what the bounded list of tags of the address's set tells, and only that
  -- list changes. The touched line then holds the address's tag, and its block marks the address's
  -- byte: beside the bytes marked before on a hit, and alone on a miss.
  pub cache_access_lem :
      (c' : Cache) × (r : AccessResult) × (cache_access c a ≡ some (c', r))
      × (r ≡ (use_address c tags a).1)
      × IsCache c' (use_address c tags a).0
      × SameShape c c'
      × Touched c c' a r
  unfolding cache_access IsGeometry
  cache_access_lem =
      let (s, es, p) = k.sets (set_of c a) set_of-lt in
      let (s', i, r, ef, f) =
        lru_fetch_lem c.line_count c.block_size s (tags (set_of c a)) (tag_of c a) p k.lines in
      let found : Line = record f.line { valid = 1; tag = tag_of c a } in
      let block : List ℕ = set (brought r c.block_size found.accessed) (byte_of c a) 1 in
      let len : length found.accessed ≡ c.block_size = p.blocks i f.line f.before in
      let line : Line = record found { accessed = block } in
      let now : LineSet = record s' { lines = set s'.lines i line } in
      let c' : Cache = record c { sets = set c.sets (set_of c a) now } in
      (
        c',
        r,
        rw (
          get_set_lem c.set_bits c.block_bits a (omega (arith, k.geometry.2)) k.geometry.0,
          get_line_lem c.set_bits c.block_bits a (omega (arith, k.geometry.2)) k.geometry.2,
          get_byte_lem c.set_bits c.block_bits a (omega (arith, k.geometry.2)) k.geometry.1,
          es,
          ef,
          f.after,
          touch_lem r c.block_size (byte_of c a) found.accessed len byte_of-lt,
        ),
        f.access,
        record {
          geometry = k.geometry;
          lines = k.lines;
          size = length-set c.sets (set_of c a) now ∙ k.size;
          block = k.block;
          sets =
              change-sets c.line_count c.block_size c.sets (set_of c a) now tags
                (use_tag c.line_count (tags (set_of c a)) (tag_of c a)).0 set_of-lt k.sets
                (written-Represents c.line_count c.block_size s'
                  (use_tag c.line_count (tags (set_of c a)) (tag_of c a)).0 i found block f.after
                  (length-set (brought r c.block_size found.accessed) (byte_of c a) 1
                    ∙ length-brought r c.block_size found.accessed len)
                  f.represents);
        },
        record { set_bits = refl; block_bits = refl; line_count = refl },
        record {
          old = s;
          new = now;
          old_set = es;
          new_set = get_elem?-set_self c.sets (set_of c a) now set_of-lt;
          at = i;
          before = f.line;
          after = line;
          old_line = f.before;
          new_line = get_elem?-set_self s'.lines i line (get-lt s'.lines i f.after);
          valid = refl;
          tag = refl;
          block = refl;
        },
      )
