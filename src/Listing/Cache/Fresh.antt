-- ===== src/Listing/Cache/Fresh.antt =====
-- Which sessions a list is given.
use mathlib.Core.Path.{subst}
use launch_code.Prelude.{
  ◌≡◌, refl, true, false, Option, none, some, List, [], ◌∷◌, Result, ok, err, All, arith, ◌⊎◌, inl,
  inr,
}
use launch_code.Prelude.Io.{Io}
use launch_code.Text.{Text}
use launch_code.Error.{AppError}
use launch_code.Model.{SessionRecord}
use launch_code.Sessions.Reconcile.{session_requires_reconcile_for_list}
use launch_code.Listing.Index.{StateFileSignature, signature_eq}
use launch_code.Listing.Cache.{
  CacheFiles, SessionListCacheDoc, session_is_cacheable, sessions_are_cacheable, accept, parsed,
  try_read_cache, refresh_cache_after_list, load_sessions_for_listing, listed, or_list,
  by_signature,
}

-- The listing would leave these sessions as they are.
abbrev pub IsSettled : List SessionRecord → Type 0
IsSettled sessions = All (λ s. session_requires_reconcile_for_list s ≡ false) sessions

cacheable-IsSettled :
    (sessions : List SessionRecord) → sessions_are_cacheable sessions ≡ true → IsSettled sessions
unfolding sessions_are_cacheable session_is_cacheable session_requires_reconcile_for_list
cacheable-IsSettled [] h = tt
cacheable-IsSettled (s ∷ ss) h = (ground (arith, h), cacheable-IsSettled ss (ground (arith, h)))

-- A document that bears this signature.
pub record Signed (signature : StateFileSignature) (doc : SessionListCacheDoc)
    (sessions : List SessionRecord) : Type 0 where
  pub same_file : signature_eq doc.state_signature signature ≡ true
  pub same_sessions : doc.sessions ≡ sessions
  pub settled : IsSettled sessions

accept-facts :
    (signature : StateFileSignature) (doc : SessionListCacheDoc) (sessions : List SessionRecord)
    → accept signature (some doc) ≡ some sessions
    → (signature_eq doc.state_signature signature ≡ true)
      × (sessions_are_cacheable doc.sessions ≡ true)
      × (doc.sessions ≡ sessions)
unfolding accept
accept-facts signature doc sessions h = ground (arith, h)

accept-Signed :
    (signature : StateFileSignature) (doc : SessionListCacheDoc) (sessions : List SessionRecord)
    → accept signature (some doc) ≡ some sessions
    → Signed signature doc sessions
accept-Signed signature doc sessions h =
    let (same, cacheable, e) = accept-facts signature doc sessions h in
    record {
      same_file = same;
      same_sessions = e;
      settled = subst IsSettled e (cacheable-IsSettled doc.sessions cacheable);
    }

module _ {W : Type 0} (files : CacheFiles W) (api_list : Io W AppError (List SessionRecord)) where
  open files use {read_state_signature, read_cache, from_str}

  -- The cache held a document of the state file as it is, in which nothing runs.
  pub record Cached (w u : W) (sessions : List SessionRecord) : Type 0 where
    pub between : W
    pub signature : StateFileSignature
    pub payload : Text
    pub doc : SessionListCacheDoc
    pub signed_file : read_state_signature w ≡ (some signature, between)
    pub stored : read_cache between ≡ (some payload, u)
    pub read : from_str payload ≡ some doc
    pub signed : Signed signature doc sessions

  -- The sessions were listed, and the cache refreshed.
  pub record Listed (u : W) (sessions : List SessionRecord) : Type 0 where
    pub before : W
    pub after : W
    pub list : api_list before ≡ (ok sessions, after)
    pub refreshed : u ≡ refresh_cache_after_list files api_list sessions after

  abbrev Outcome : W → Result AppError (List SessionRecord) × W → Type 0
  Outcome w (ok sessions, u) = Cached w u sessions ⊎ Listed u sessions
  Outcome w (err e, u) = Unit

  listed-Outcome :
      (w v : W) (r : Result AppError (List SessionRecord) × W)
      → api_list v ≡ r
      → Outcome w (listed files api_list r)
  listed-Outcome w v (ok sessions, u) e =
      inr (record { before = v; after = u; list = e; refreshed = refl })
  listed-Outcome w v (err e, u) k = tt

  by_payload :
      (w v u : W) (signature : StateFileSignature) (payload : Option Text)
      → read_state_signature w ≡ (some signature, v)
      → read_cache v ≡ (payload, u)
      → Outcome w (or_list files api_list (parsed files api_list signature payload, u))
  unfolding accept
  by_payload w v u signature none e f = listed-Outcome w u (api_list u) refl
  by_payload w v u signature (some payload) e f = by_doc (from_str payload) refl
    where
      accepted :
          (doc : SessionListCacheDoc) (o : Option (List SessionRecord))
          → from_str payload ≡ some doc
          → accept signature (some doc) ≡ o
          → Outcome w (or_list files api_list (o, u))
      accepted doc none k a = listed-Outcome w u (api_list u) refl
      accepted doc (some sessions) k a = inl (record {
        between = v;
        signature = signature;
        payload = payload;
        doc = doc;
        signed_file = e;
        stored = f;
        read = k;
        signed = accept-Signed signature doc sessions a;
      })

      by_doc :
          (o : Option SessionListCacheDoc)
          → from_str payload ≡ o
          → Outcome w (or_list files api_list (accept signature o, u))
      by_doc none k = listed-Outcome w u (api_list u) refl
      by_doc (some doc) k = accepted doc (accept signature (some doc)) k refl

  -- A list is given the sessions of the workspace as they were listed, and the cache is refreshed; or
  -- those of a cache that bears the signature of the state file, and in which no session has a process
  -- or would be changed by listing.
  pub load_sessions_for_listing-Fresh :
      (w u : W) (sessions : List SessionRecord)
      → load_sessions_for_listing files api_list w ≡ (ok sessions, u)
      → Cached w u sessions ⊎ Listed u sessions
  unfolding load_sessions_for_listing try_read_cache
  load_sessions_for_listing-Fresh w u sessions h =
      subst (Outcome w) h (by_signature_read (read_state_signature w) refl)
    where
      by_signature_read :
          (r : Option StateFileSignature × W)
          → read_state_signature w ≡ r
          → Outcome w (by_signature files api_list r)
      by_signature_read (none, v) e = listed-Outcome w v (api_list v) refl
      by_signature_read (some signature, v) e =
          by_payload w v (read_cache v).1 signature (read_cache v).0 e refl
