-- ===== src/Ops/Cache.antt =====
-- src/ops/cache.ts, the response cache: least recently used first out, with a time to live. Times
-- are milliseconds. A response is any type: the copy that `get` makes by JSON is the value itself.
pub mod Bounds
pub mod Lookup
use vibe_ai_router.Common.{
  ℕ, ◌+◌, ◌*◌, String, Option, none, some, List, [], ◌∷◌, leb, ltb, length, if◌then◌else◌,
}
use vibe_ai_router.Common.Dict
use vibe_ai_router.Common.Dict.{Dict}

module _ {ℓ} (A : Type ℓ) where
  pub record Entry : Type ℓ where
    pub response : A
    pub expires_at : ℕ

  pub record ResponseCache : Type ℓ where
    pub max_entries : ℕ
    pub entries : Dict Entry

module _ {ℓ} {A : Type ℓ} where
  abbrev pub new_cache : ℕ → ResponseCache A
  new_cache max_entries = record { max_entries = max_entries; entries = [] }

  abbrev with_entries : Dict (Entry A) → ResponseCache A → ResponseCache A
  with_entries m c = record c { entries = m }

  -- `get` on the entry that it finds: an expired one is dropped, another is moved to the end.
  unfoldable pub get_entry :
      String → ℕ → Option (Entry A) → ResponseCache A → ResponseCache A × Option A
  get_entry key now none c = (c, none)
  get_entry key now (some e) c =
      if ltb e.expires_at now
      then (with_entries (Dict.remove key c.entries) c, none)
      else (with_entries (Dict.put key e (Dict.remove key c.entries)) c, some e.response)

  unfoldable pub get : String → ℕ → ResponseCache A → ResponseCache A × Option A
  get key now c = get_entry key now (Dict.get key c.entries) c

  -- Deletes the first key, the one that was used longest ago.
  unfoldable pub evict : Dict (Entry A) → Dict (Entry A)
  evict m = elim (Dict.first_key m) [ none ↦ m | some oldest ↦ Dict.remove oldest m ]

  unfoldable pub set : String → A → ℕ → ℕ → ResponseCache A → ResponseCache A
  set key response ttl_seconds now c =
      if leb ttl_seconds 0
      then c
      else let room = if leb c.max_entries (length c.entries) then evict c.entries else c.entries in
        with_entries
          (Dict.put key (record { response = response; expires_at = now + ttl_seconds * 1000 })
            room)
          c

  unfoldable pub size : ResponseCache A → ℕ
  size c = length c.entries

-- A use of the cache, and a run of uses.
pub data CacheCall {ℓ} (A : Type ℓ) : Type ℓ where
  read : String → ℕ → CacheCall A
  save : String → A → ℕ → ℕ → CacheCall A

module _ {ℓ} {A : Type ℓ} where
  unfoldable pub step : CacheCall A → ResponseCache A → ResponseCache A
  step (read key now) c = (get key now c).0
  step (save key response ttl_seconds now) c = set key response ttl_seconds now c

  unfoldable pub run : List (CacheCall A) → ResponseCache A → ResponseCache A
  run [] c = c
  run (call ∷ calls) c = run calls (step call c)
