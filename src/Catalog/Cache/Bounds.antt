-- ===== src/Catalog/Cache/Bounds.antt =====
-- The cache stays within its bound and answers what was stored.
use llm_evaluation_platform.Common.{
  ℕ, zero, suc, ◌+◌, ◌≤◌, ◌<◌, String, ◌≡◌, refl, ◌⊎◌, inl, inr, true, some, [], ◌∷◌, arith, eq_iff,
  ltb, str_eq, if◌then◌else◌, is_some, Bool-cases, length, All,
}
use llm_evaluation_platform.Common.Dict.{lookup, insert, erase, lookup-insert}
use llm_evaluation_platform.Catalog.Cache.{
  ModelCatalogResult, CachedCatalog, Cache, not_expired, oldest_from, make_room, store,
}

pub length-erase-le : (k : String) (c : Cache) → length (erase k c) ≤ length c
unfolding erase
length-erase-le k [] = omega arith
length-erase-le k ((j, e) ∷ c) = ground (arith, length-erase-le k c)

length-erase-lt :
    (k : String) (c : Cache) → is_some (lookup k c) ≡ true → length (erase k c) < length c
unfolding erase lookup
length-erase-lt k [] h = cc
length-erase-lt k ((j, e) ∷ c) h = ground (arith, length-erase-lt k c, length-erase-le k c)

-- The oldest key is the first one or a key of the others.
pub oldest_is_key :
    (b : String × ℕ) (c : Cache)
    → ((oldest_from b c).0 ≡ b.0) ⊎ (is_some (lookup (oldest_from b c).0 c) ≡ true)
unfolding oldest_from lookup
oldest_is_key b [] = inl refl
oldest_is_key b ((k, e) ∷ c) =
    ground
      (arith, oldest_is_key (if ltb e.expires_at b.1 then (k, e.expires_at) else b) c, eq_iff k k)

oldest_found :
    (k : String) (e : CachedCatalog) (c : Cache)
    → is_some (lookup (oldest_from (k, e.expires_at) c).0 ((k, e) ∷ c)) ≡ true
unfolding lookup
oldest_found k e c =
    ground (arith, oldest_is_key (k, e.expires_at) c, eq_iff k (oldest_from (k, e.expires_at) c).0)

length-insert :
    (k : String) (e : CachedCatalog) (c : Cache) → length (insert k e c) ≤ suc (length c)
unfolding insert
length-insert k e [] = omega arith
length-insert k e ((j, f) ∷ c) = ground (arith, length-insert k e c)

-- A condition on single entries outlives the loop.
pub All-erase :
    (P : String × CachedCatalog → Type 0) (k : String) (c : Cache) → All P c → All P (erase k c)
unfolding erase
All-erase P k [] h = tt
All-erase P k ((j, e) ∷ c) h = elim (Bool-cases (str_eq j k)) [
  | inl q ↦ rw q (All-erase P k c h.1)
  | inr q ↦ rw q (h.0, All-erase P k c h.1)
]

pub make_room_lem :
    (P : String × CachedCatalog → Type 0) (maximum fuel : ℕ) (c : Cache)
    → 1 ≤ maximum
    → length c ≤ fuel
    → All P c
    → (d : Cache) × (make_room maximum fuel c ≡ some d) × (length d < maximum) × All P d
unfolding make_room
make_room_lem P maximum zero [] m f h = ([], ground arith, omega arith, tt)
make_room_lem P maximum zero (x ∷ c) m f h = absurd (omega arith)
make_room_lem P maximum (suc fuel) [] m f h = ([], ground arith, omega arith, tt)
make_room_lem P maximum (suc fuel) ((k, e) ∷ c) m f h =
    elim (Bool-cases (ltb (length ((k, e) ∷ c)) maximum)) [
      | inl q ↦ ((k, e) ∷ c, rw q refl, ground arith, h)
      | inr q ↦
          let old = (oldest_from (k, e.expires_at) c).0 in
          let less = length-erase-lt old ((k, e) ∷ c) (oldest_found k e c) in
          let (d, r, n, a) =
            make_room_lem P maximum fuel (erase old ((k, e) ∷ c)) m (omega (arith, less))
              (All-erase P old ((k, e) ∷ c) h) in
          (d, rw q r, n, a)
    ]

abbrev pub LivesAfter : ℕ → String × CachedCatalog → Type 0
LivesAfter now p = ltb now p.1.expires_at ≡ true

not_expired-LivesAfter : (now : ℕ) (c : Cache) → All (LivesAfter now) (not_expired now c)
not_expired-LivesAfter now [] = tt
not_expired-LivesAfter now (p ∷ c) = ground (arith, not_expired-LivesAfter now c)

insert-LivesAfter :
    (now : ℕ) (k : String) (e : CachedCatalog) (c : Cache)
    → ltb now e.expires_at ≡ true
    → All (LivesAfter now) c
    → All (LivesAfter now) (insert k e c)
unfolding insert
insert-LivesAfter now k e [] l h = (l, tt)
insert-LivesAfter now k e ((j, f) ∷ c) l h = ground (arith, insert-LivesAfter now k e c)

-- With room for one entry and a positive time to live, storing a result always succeeds: the cache
-- then holds at most the maximum number of entries, among them the new one, and none that is
-- expired.
pub store_fits :
    (ttl maximum : ℕ) (key : String) (r : ModelCatalogResult) (now : ℕ) (c : Cache)
    → 1 ≤ ttl
    → 1 ≤ maximum
    → (d : Cache) × (store ttl maximum key r now c ≡ some d)
      × (length d ≤ maximum)
      × (lookup key d ≡ some (record { result = r; expires_at = now + ttl }))
      × All (LivesAfter now) d
unfolding store
store_fits ttl maximum key r now c t m =
    let live = not_expired now c in
    let entry : CachedCatalog = record { result = r; expires_at = now + ttl } in
    let (d, e, n, a) =
      make_room_lem (LivesAfter now) maximum (length live) live m (omega arith)
        (not_expired-LivesAfter now c) in
    (
      insert key entry d,
      ground (arith, e),
      omega (arith, n, length-insert key entry d),
      ground (arith, lookup-insert key key entry d, eq_iff key key),
      insert-LivesAfter now key entry d (ground arith) a,
    )
