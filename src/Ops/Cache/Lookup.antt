-- ===== src/Ops/Cache/Lookup.antt =====
-- What a `get` returns, and what an eviction leaves.
use text.Mathlib.TextPositions.{eq_refl}
use vibe_ai_router.Common.{
  ℕ, ◌+◌, ◌*◌, ◌≤◌, ◌<◌, String, ◌≡◌, refl, true, false, Option, none, some, List, [], ◌∷◌, arith,
  leb, length, str_eq, eq_iff, if◌then◌else◌,
}
use vibe_ai_router.Common.Dict
use vibe_ai_router.Common.Dict.{Dict, get-put, get-remove}
use vibe_ai_router.Ops.Cache.{
  Entry, ResponseCache, new_cache, get_entry, get, evict, set, CacheCall, read, save, step, run,
}

module _ {ℓ} {A : Type ℓ} where
  -- The entry that the calls saved last under a key, by the history alone.
  abbrev pub last_saved : String → List (CacheCall A) → Option (Entry A) → Option (Entry A)
  last_saved key [] o = o
  last_saved key (read k now ∷ calls) o = last_saved key calls o
  last_saved key (save k r ttl now ∷ calls) o = last_saved key calls (
      if leb ttl 0
      then o
      else if str_eq k key
      then some (record { response = r; expires_at = now + ttl * 1000 })
      else o)

  -- Everything in the cache is what was saved last under its key.
  abbrev IsCurrent : (String → Option (Entry A)) → Dict (Entry A) → Type ℓ
  IsCurrent saved m = (key : String) (e : Entry A) → Dict.get key m ≡ some e → saved key ≡ some e

  remove-IsCurrent :
      (saved : String → Option (Entry A)) (k : String) (m : Dict (Entry A))
      → IsCurrent saved m
      → IsCurrent saved (Dict.remove k m)
  remove-IsCurrent saved k m h key e found = ground (arith, get-remove k key m, h key e)

  evict-IsCurrent :
      (saved : String → Option (Entry A)) (m : Dict (Entry A))
      → IsCurrent saved m
      → IsCurrent saved (evict m)
  unfolding evict
  evict-IsCurrent saved [] h = h
  evict-IsCurrent saved ((k, e) ∷ m) h = remove-IsCurrent saved k ((k, e) ∷ m) h

  get_entry-IsCurrent :
      (saved : String → Option (Entry A)) (k : String) (now : ℕ) (o : Option (Entry A))
      (c : ResponseCache A)
      → Dict.get k c.entries ≡ o
      → IsCurrent saved c.entries
      → IsCurrent saved (get_entry k now o c).0.entries
  unfolding get_entry
  get_entry-IsCurrent saved k now none c f h key e found = h key e found
  get_entry-IsCurrent saved k now (some x) c f h key e found = ground (
    arith,
    get-put k key x (Dict.remove k c.entries),
    get-remove k key c.entries,
    h key e,
    eq_iff k key,
  )

  set-IsCurrent :
      (saved : String → Option (Entry A)) (k : String) (r : A) (ttl now : ℕ) (c : ResponseCache A)
      → IsCurrent saved c.entries
      → IsCurrent
          (λ key. last_saved key (save k r ttl now ∷ []) (saved key))
          (set k r ttl now c).entries
  unfolding set
  set-IsCurrent saved k r ttl now c h key e found =
      let x : Entry A = record { response = r; expires_at = now + ttl * 1000 } in
      ground (
        arith,
        get-put k key x c.entries,
        get-put k key x (evict c.entries),
        h key e,
        evict-IsCurrent saved c.entries h key e,
        eq_iff k key,
      )

  run-IsCurrent :
      (saved : String → Option (Entry A)) (calls : List (CacheCall A)) (c : ResponseCache A)
      → IsCurrent saved c.entries
      → IsCurrent (λ key. last_saved key calls (saved key)) (run calls c).entries
  unfolding run step get
  run-IsCurrent saved [] c h = h
  run-IsCurrent saved (read k now ∷ calls) c h =
      run-IsCurrent saved calls (get k now c).0
        (get_entry-IsCurrent saved k now (Dict.get k c.entries) c refl h)
  run-IsCurrent saved (save k r ttl now ∷ calls) c h =
      run-IsCurrent (λ key. last_saved key (save k r ttl now ∷ []) (saved key)) calls
        (set k r ttl now c) (set-IsCurrent saved k r ttl now c h)

  get_entry-hit :
      (key : String) (now : ℕ) (o : Option (Entry A)) (c : ResponseCache A) (r : A)
      → (get_entry key now o c).1 ≡ some r
      → (e : Entry A) × (o ≡ some e) × (e.response ≡ r) × (now ≤ e.expires_at)
  unfolding get_entry
  get_entry-hit key now none c r h = ground arith
  get_entry-hit key now (some e) c r h = (e, refl, ground arith, ground arith)

  -- After any run from an empty cache, a hit returns the response that was saved last under its
  -- key, and no later than its expiry.
  pub get-hit :
      (max_entries : ℕ) (calls : List (CacheCall A)) (key : String) (now : ℕ) (r : A)
      → (get key now (run calls (new_cache max_entries))).1 ≡ some r
      → (e : Entry A) × (last_saved key calls none ≡ some e)
        × (e.response ≡ r)
        × (now ≤ e.expires_at)
  unfolding get
  get-hit max_entries calls key now r h =
      let c = run calls (new_cache max_entries) in
      let (e, found, same, fresh) = get_entry-hit key now (Dict.get key c.entries) c r h in
      let current =
        run-IsCurrent (λ _. none) calls (new_cache max_entries) (unfold Dict.get in λ k x f. cc) in
      (e, current key e found, same, fresh)

  get_entry-fresh :
      (key : String) (now : ℕ) (e : Entry A) (c : ResponseCache A)
      → now ≤ e.expires_at
      → (get_entry key now (some e) c).1 ≡ some e.response
  unfolding get_entry
  get_entry-fresh key now e c h = ground arith

  -- A saved response is there until it expires, if nothing else is done to the cache.
  pub get-set :
      (key : String) (r : A) (ttl now later : ℕ) (c : ResponseCache A)
      → 0 < ttl
      → later ≤ now + ttl * 1000
      → (get key later (set key r ttl now c)).1 ≡ some r
  unfolding get set
  get-set key r ttl now later c pos fresh =
      let x : Entry A = record { response = r; expires_at = now + ttl * 1000 } in
      let room = if leb c.max_entries (length c.entries) then evict c.entries else c.entries in
      let live : leb ttl 0 ≡ false = ground arith in
      rw (live, get-put key key x room, eq_refl key)
        (get_entry-fresh key later x (record c { entries = Dict.put key x room }) fresh)

  -- A save with a time to live into a full cache drops the oldest entry, if that has another key;
  -- also when the saved key is there already, so that no room is needed.
  pub set-drops_oldest :
      (key oldest : String) (r : A) (e : Entry A) (ttl now : ℕ) (m : Dict (Entry A))
      (c : ResponseCache A)
      → 0 < ttl
      → c.entries ≡ (oldest, e) ∷ m
      → c.max_entries ≤ length c.entries
      → str_eq key oldest ≡ false
      → Dict.get oldest (set key r ttl now c).entries ≡ none
  unfolding set evict
  set-drops_oldest key oldest r e ttl now m c pos shape full ne =
      let x : Entry A = record { response = r; expires_at = now + ttl * 1000 } in
      let live : leb ttl 0 ≡ false = ground arith in
      let no_room : leb c.max_entries (length c.entries) ≡ true = ground arith in
      rw
        (
          live,
          no_room,
          shape,
          get-put key oldest x _,
          ne,
          get-remove oldest oldest _,
          eq_refl oldest,
        )
        refl
