-- ===== src/Catalog/Cache/Youngest.antt =====
-- What the cache drops to make room.
use llm_evaluation_platform.Common.{
  ℕ, zero, suc, ◌+◌, ◌≤◌, ◌<◌, String, ◌≡◌, refl, ◌≢◌, ◌⊎◌, inl, inr, true, Option, none, some, [],
  ◌∷◌, arith, eq_iff, ltb, str_eq, if◌then◌else◌, is_none, Bool-cases, length,
}
use llm_evaluation_platform.Common.Dict.{lookup, insert, erase, lookup-insert, lookup-erase}
use llm_evaluation_platform.Catalog.Cache.{
  ModelCatalogResult, CachedCatalog, Cache, not_expired, oldest_from, make_room, store,
}

-- Every key occurs once, as in a dict.
abbrev pub HasKeysOnce : Cache → Type 0
HasKeysOnce [] = Unit
HasKeysOnce ((k, e) ∷ c) = (is_none (lookup k c) ≡ true) × HasKeysOnce c

erase-HasKeysOnce : (k : String) (c : Cache) → HasKeysOnce c → HasKeysOnce (erase k c)
unfolding erase
erase-HasKeysOnce k [] h = tt
erase-HasKeysOnce k ((j, e) ∷ c) h = ground (arith, lookup-erase k j c, erase-HasKeysOnce k c h.1)

none-not_expired :
    (now : ℕ) (k : String) (c : Cache)
    → is_none (lookup k c) ≡ true
    → is_none (lookup k (not_expired now c)) ≡ true
unfolding lookup
none-not_expired now k [] h = refl
none-not_expired now k ((j, e) ∷ c) h = ground (arith, none-not_expired now k c)

not_expired-HasKeysOnce : (now : ℕ) (c : Cache) → HasKeysOnce c → HasKeysOnce (not_expired now c)
not_expired-HasKeysOnce now [] h = tt
not_expired-HasKeysOnce now ((j, e) ∷ c) h =
    ground (arith, none-not_expired now j c, not_expired-HasKeysOnce now c h.1)

some-not_expired :
    (now : ℕ) (k : String) (f : CachedCatalog) (c : Cache)
    → lookup k c ≡ some f
    → now < f.expires_at
    → lookup k (not_expired now c) ≡ some f
unfolding lookup
some-not_expired now k f [] h l = cc
some-not_expired now k f ((j, e) ∷ c) h l = ground (arith, some-not_expired now k f c)

not_expired-some :
    (now : ℕ) (k : String) (f : CachedCatalog) (c : Cache)
    → HasKeysOnce c
    → lookup k (not_expired now c) ≡ some f
    → lookup k c ≡ some f
unfolding lookup
not_expired-some now k f [] u h = cc
not_expired-some now k f ((j, e) ∷ c) u h =
    ground (arith, not_expired-some now k f c u.1, none-not_expired now k c, eq_iff j k)

-- The oldest entry is the start or an entry of the cache with the time that was found.
oldest_time :
    (b : String × ℕ) (c : Cache)
    → HasKeysOnce c
    → (oldest_from b c ≡ b)
      ⊎ ((f : CachedCatalog) × (lookup (oldest_from b c).0 c ≡ some f)
          × (f.expires_at ≡ (oldest_from b c).1))
unfolding oldest_from lookup
oldest_time b [] u = inl refl
oldest_time b ((k, e) ∷ c) u =
    let b' : String × ℕ = if ltb e.expires_at b.1 then (k, e.expires_at) else b in
    elim (oldest_time b' c u.1) [
      | inl q ↦ elim (Bool-cases (ltb e.expires_at b.1)) [
        | inl l ↦ inr (e, ground (arith, eq_iff k k), ground arith)
        | inr l ↦ inl (ground arith)
      ]
      | inr (f, q, t) ↦ inr (f, ground (arith, eq_iff k (oldest_from b' c).0), t)
    ]

oldest-le-start : (b : String × ℕ) (c : Cache) → (oldest_from b c).1 ≤ b.1
unfolding oldest_from
oldest-le-start b [] = omega arith
oldest-le-start b ((k, e) ∷ c) =
    ground (arith, oldest-le-start (if ltb e.expires_at b.1 then (k, e.expires_at) else b) c)

oldest-le :
    (b : String × ℕ) (c : Cache) (i : String) (f : CachedCatalog)
    → lookup i c ≡ some f
    → (oldest_from b c).1 ≤ f.expires_at
unfolding oldest_from lookup
oldest-le b [] i f h = cc
oldest-le b ((k, e) ∷ c) i f h =
    let b' : String × ℕ = if ltb e.expires_at b.1 then (k, e.expires_at) else b in
    ground (arith, oldest-le b' c i f, oldest-le-start b' c)

-- The entry under the oldest key expires no later than any other.
oldest_expires :
    (k : String) (e : CachedCatalog) (c : Cache) (i : String) (f g : CachedCatalog)
    → HasKeysOnce ((k, e) ∷ c)
    → lookup (oldest_from (k, e.expires_at) c).0 ((k, e) ∷ c) ≡ some f
    → lookup i ((k, e) ∷ c) ≡ some g
    → f.expires_at ≤ g.expires_at
unfolding lookup
oldest_expires k e c i f g u h p =
    let b = oldest_from (k, e.expires_at) c in
    elim (oldest_time (k, e.expires_at) c u.1) [
      | inl q ↦ ground (
        arith,
        oldest-le (k, e.expires_at) c i g,
        oldest-le-start (k, e.expires_at) c,
        eq_iff k k,
      )
      | inr (x, q, t) ↦ ground (
        arith,
        oldest-le (k, e.expires_at) c i g,
        oldest-le-start (k, e.expires_at) c,
        eq_iff k b.0,
      )
    ]

-- What the loop keeps was there before and expires no earlier than what it drops.
make_room_keeps :
    (maximum fuel : ℕ) (c d : Cache) (i : String) (g : CachedCatalog)
    → HasKeysOnce c
    → make_room maximum fuel c ≡ some d
    → lookup i d ≡ some g
    → (lookup i c ≡ some g)
      × ((j : String) (f : CachedCatalog)
          → lookup j c ≡ some f
          → lookup j d ≡ none
          → f.expires_at ≤ g.expires_at)
unfolding make_room lookup
make_room_keeps maximum zero c d i g u e h = (ground arith, λ j f p q. ground arith)
make_room_keeps maximum (suc fuel) [] d i g u e h = (ground arith, λ j f p q. ground arith)
make_room_keeps maximum (suc fuel) ((k, x) ∷ c) d i g u e h =
    elim (Bool-cases (ltb (length ((k, x) ∷ c)) maximum)) [
      | inl q ↦ (ground arith, λ j f p r. ground arith)
      | inr q ↦
          let old = (oldest_from (k, x.expires_at) c).0 in
          let c1 = erase old ((k, x) ∷ c) in
          let (kept, later) =
            make_room_keeps maximum fuel c1 d i g (erase-HasKeysOnce old ((k, x) ∷ c) u)
              (ground arith) h in
          let here = lookup-erase old i ((k, x) ∷ c) in
          let was : lookup i ((k, x) ∷ c) ≡ some g = ground (arith, kept, here) in
          (
            was,
            λ j f p r. elim (Bool-cases (str_eq old j)) [
              | inl s ↦ oldest_expires k x c i f g u (ground (arith, p, eq_iff old j)) was
              | inr s ↦ later j f (ground (arith, p, lookup-erase old j ((k, x) ∷ c))) r
            ],
          )
    ]

stored_entries :
    (ttl maximum : ℕ) (key : String) (r : ModelCatalogResult) (now : ℕ) (c d : Cache)
    (o : Option Cache)
    → make_room maximum (length (not_expired now c)) (not_expired now c) ≡ o
    → 1 ≤ ttl
    → store ttl maximum key r now c ≡ some d
    → (m : Cache) × (o ≡ some m)
      × (d ≡ insert key (record { result = r; expires_at = now + ttl }) m)
unfolding store
stored_entries ttl maximum key r now c d none q t e = absurd (ground arith)
stored_entries ttl maximum key r now c d (some m) q t e = (m, refl, ground arith)

-- In a cache whose keys occur once, and with a positive time to live, to store a result keeps
-- entries of other keys as they were, and drops no entry for one that is older: of the entries not
-- yet expired, one that is dropped expires no later than any that is kept.
pub store_drops_oldest :
    (ttl maximum : ℕ) (key : String) (r : ModelCatalogResult) (now : ℕ) (c d : Cache)
    (kept dropped : String) (e f : CachedCatalog)
    → HasKeysOnce c
    → 1 ≤ ttl
    → store ttl maximum key r now c ≡ some d
    → kept ≢ key
    → lookup kept d ≡ some e
    → lookup dropped c ≡ some f
    → now < f.expires_at
    → lookup dropped d ≡ none
    → (lookup kept c ≡ some e) × (f.expires_at ≤ e.expires_at)
store_drops_oldest ttl maximum key r now c d i j g f u t e n h p l x =
    let live = not_expired now c in
    let (m, q, is_d) =
      stored_entries ttl maximum key r now c d (make_room maximum (length live) live) refl t e in
    let entry : CachedCatalog = record { result = r; expires_at = now + ttl } in
    let (was, later) =
      make_room_keeps maximum (length live) live m i g (not_expired-HasKeysOnce now c u) q
        (ground (arith, h, is_d, lookup-insert key i entry m, eq_iff key i)) in
    (
      not_expired-some now i g c u was,
      later j f (some-not_expired now j f c p l)
          (ground (arith, x, is_d, lookup-insert key j entry m)),
    )
