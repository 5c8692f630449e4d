-- ===== src/Ops/Cache/Bounds.antt =====
-- The size of the cache.
use text.Mathlib.TextPositions.{eq_refl}
use vibe_ai_router.Common.{
  ℕ, ◌+◌, ◌*◌, ◌≤◌, ◌<◌, String, ◌≡◌, refl, ◌∙◌, Option, none, some, List, [], ◌∷◌, arith, length,
}
use vibe_ai_router.Common.Dict
use vibe_ai_router.Common.Dict.{Dict, length-put-le, length-remove-le, length-remove-lt}
use vibe_ai_router.Ops.Cache.{
  Entry, ResponseCache, new_cache, get_entry, get, evict, set, size, CacheCall, read, save, step,
  run,
}

module _ {ℓ} {A : Type ℓ} where
  length-evict-lt : (m : Dict (Entry A)) → 0 < length m → length (evict m) < length m
  unfolding evict
  length-evict-lt [] h = absurd (omega arith)
  length-evict-lt ((k, e) ∷ m) h =
      length-remove-lt k ((k, e) ∷ m) (unfold Dict.get in rw (eq_refl k))

  -- the caller found the entry
  get_entry-fits :
      (key : String) (now : ℕ) (o : Option (Entry A)) (c : ResponseCache A)
      → Dict.get key c.entries ≡ o
      → size (get_entry key now o c).0 ≤ size c
  unfolding get_entry size
  get_entry-fits key now none c h = omega arith
  get_entry-fits key now (some e) c h = ground (
    arith,
    length-remove-le key c.entries,
    length-remove-lt key c.entries,
    length-put-le key e (Dict.remove key c.entries),
  )

  set-fits :
      (key : String) (r : A) (ttl now : ℕ) (c : ResponseCache A)
      → 0 < c.max_entries
      → size c ≤ c.max_entries
      → size (set key r ttl now c) ≤ c.max_entries
  unfolding set size
  set-fits key r ttl now c h le =
      let e : Entry A = record { response = r; expires_at = now + ttl * 1000 } in
      ground (
        arith,
        length-evict-lt c.entries,
        length-put-le key e (evict c.entries),
        length-put-le key e c.entries,
      )

  max_entries-step :
      (call : CacheCall A) (c : ResponseCache A) → (step call c).max_entries ≡ c.max_entries
  unfolding step get set get_entry
  max_entries-step (read key now) c = ground arith
  max_entries-step (save key r ttl now) c = ground arith

  step-fits :
      (call : CacheCall A) (c : ResponseCache A)
      → 0 < c.max_entries
      → size c ≤ c.max_entries
      → size (step call c) ≤ c.max_entries
  unfolding step get
  step-fits (read key now) c h le =
      omega (arith, get_entry-fits key now (Dict.get key c.entries) c refl, le)
  step-fits (save key r ttl now) c h le = set-fits key r ttl now c h le

  run-fits :
      (calls : List (CacheCall A)) (n : ℕ) (c : ResponseCache A)
      → c.max_entries ≡ n
      → 0 < n
      → size c ≤ n
      → size (run calls c) ≤ n
  unfolding run
  run-fits [] n c e h le = le
  run-fits (call ∷ calls) n c e h le =
      run-fits calls n (step call c) (max_entries-step call c ∙ e) h
        (omega (arith, step-fits call c))

  -- However it is used, a cache made for at least one entry never holds more entries than it was
  -- made for.
  pub size-run-le :
      (max_entries : ℕ) (calls : List (CacheCall A))
      → 0 < max_entries
      → size (run calls (new_cache max_entries)) ≤ max_entries
  size-run-le max_entries calls h =
      run-fits calls max_entries (new_cache max_entries) refl h (unfold size in omega arith)
