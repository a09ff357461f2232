-- ===== src/Multi/Requests.antt =====
-- src/multi-ptc.c: although a participant postpones and leaves out requests, the controller knows the
-- latest one when the participant waits.
use usfstl.Base.{
  ℕ, ◌≡◌, refl, ap, ◌∙◌, inl, inr, arith, true, false, ◌||◌, not, Option, none, some, List, [], ◌∷◌,
  ◌++◌, ◌==◌, Bool-cases, ok, Returns,
}
use usfstl.Multi.SharedMem.{MemState, sent_sections, prepare_msg}
use usfstl.Multi.{PtcCall, sched_request, sched_wait, sched_req_and_wait}
use usfstl.Multi.PtcSide.{Ptc, PtcSched, ext_req, request_now, send_wait}

-- The time of a call, if it is a request, or else `known`.
abbrev pub requested : PtcCall → Option ℕ → Option ℕ
requested (sched_request p time) known = some time
requested (sched_wait p msg) known = known
requested (sched_req_and_wait p time msg) known = some time

-- The request that the controller has after some calls.
abbrev pub latest_request : List PtcCall → Option ℕ → Option ℕ
latest_request [] known = known
latest_request (c ∷ calls) known = latest_request calls (requested c known)

latest_request_snoc :
    (calls : List PtcCall) (c : PtcCall) (known : Option ℕ)
    → latest_request (calls ++ c ∷ []) known ≡ requested c (latest_request calls known)
latest_request_snoc [] c known = refl
latest_request_snoc (d ∷ calls) c known = latest_request_snoc calls c (requested d known)

-- A request that is not postponed is the latest one that the controller has.
abbrev pub IsKnown : Ptc → Type 0
IsKnown e = e.time_valid ≡ true → e.pending ≡ false → latest_request e.made none ≡ some e.time

module _ (me : ℕ) where
  abbrev pub ext_reqs : PtcSched → List ℕ → PtcSched
  ext_reqs s [] = s
  ext_reqs s (at ∷ times) = ext_reqs (ext_req me s at).0 times

  -- What the controller knows after a request, unless it is postponed.
  request_now_known :
      (e : Ptc) (at : ℕ)
      → IsKnown e
      → (request_now me e at).pending ≡ false
      → latest_request (request_now me e at).made none ≡ some at
  request_now_known e at k p = elim (Bool-cases e.sched_continue) [
    | inl c ↦ let no : true ≡ false = rw c at p in absurd (ground arith)
    | inr c ↦ elim (Bool-cases (not e.time_valid || not (e.time == at))) [
      | inl f ↦ rw (c, f) (latest_request_snoc e.made (sched_request me at) none)
      | inr f ↦
          let valid : e.time_valid ≡ true = ground arith in
          let same : e.time ≡ at = ground arith in
          let q : e.pending ≡ false = rw (c, f) at p in rw (c, f) (k valid q ∙ ap some same)
    ]
  ]

  ext_req-IsKnown : (s : PtcSched) (at : ℕ) → IsKnown s.env → IsKnown (ext_req me s at).0.env
  unfolding ext_req
  ext_req-IsKnown s at k v p = request_now_known s.env at k p

  ext_reqs-IsKnown :
      (s : PtcSched) (times : List ℕ) → IsKnown s.env → IsKnown (ext_reqs s times).env
  ext_reqs-IsKnown s [] k = k
  ext_reqs-IsKnown s (at ∷ times) k =
      ext_reqs-IsKnown (ext_req me s at).0 times (ext_req-IsKnown s at k)

  same_mem : (e : Ptc) (at : ℕ) → (request_now me e at).own_mem ≡ e.own_mem
  same_mem e at = elim (Bool-cases e.sched_continue) [
    | inl c ↦ rw c refl
    | inr c ↦ elim (Bool-cases (not e.time_valid || not (e.time == at))) [
      | inl f ↦ rw (c, f) refl
      | inr f ↦ rw (c, f) refl
    ]
  ]

  ext_reqs_mem : (s : PtcSched) (times : List ℕ) → (ext_reqs s times).env.own_mem ≡ s.env.own_mem
  unfolding ext_req
  ext_reqs_mem s [] = refl
  ext_reqs_mem s (at ∷ times) = ext_reqs_mem (ext_req me s at).0 times ∙ same_mem s.env at

  -- The state before a wait, in which `time` was the last request.
  send_wait_asked :
      (s : PtcSched) (m : MemState)
      → IsKnown s.env
      → s.env.time_valid ≡ true
      → prepare_msg s.env.own_mem ≡ ok m
      → Returns (send_wait me s) (λ t.
        (latest_request t.env.made none ≡ some s.env.time)
        × IsKnown t.env
        × (t.env.sched_continue ≡ false))
  unfolding send_wait
  send_wait_asked s m k v e = elim (Bool-cases s.env.pending) [
    | inl p ↦
        rw (e, p)
          (
            latest_request_snoc s.env.made
                (sched_req_and_wait me s.env.time (sent_sections m m.shared_mem_dirty)) none,
            (λ w q. let no : ⊥ = ground arith in absurd no),
            refl,
          )
    | inr p ↦
        rw (e, p)
          (
            latest_request_snoc s.env.made (sched_wait me (sent_sections m m.shared_mem_dirty)) none
                ∙ k v p,
            (λ w q. let no : ⊥ = ground arith in absurd no),
            refl,
          )
  ]

  -- While it has its turn a participant postpones its requests, and otherwise it leaves out repeated
  -- ones. If it waits after any requests, of which the last is for the time `at`, the controller has
  -- been asked for that time last, and the participant does not have its turn any more.
  pub send_wait-ext_req :
      (s : PtcSched) (times : List ℕ) (at : ℕ) (m : MemState)
      → IsKnown s.env
      → prepare_msg s.env.own_mem ≡ ok m
      → Returns (send_wait me (ext_req me (ext_reqs s times) at).0) (λ t.
        (latest_request t.env.made none ≡ some at) × IsKnown t.env × (t.env.sched_continue ≡ false))
  unfolding ext_req
  send_wait-ext_req s times at m k e =
      let u = ext_reqs s times in
      send_wait_asked (ext_req me u at).0 m (ext_req-IsKnown u at (ext_reqs-IsKnown s times k)) refl
        (ap prepare_msg (same_mem u.env at ∙ ext_reqs_mem s times) ∙ e)
