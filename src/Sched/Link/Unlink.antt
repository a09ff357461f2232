-- ===== src/Sched/Link/Unlink.antt =====
-- The clock of a scheduler when it is linked, and when the link ends.
use usfstl.Base.{
  ℕ, ◌+◌, ◌*◌, ◌<◌, ◌≤◌, ◌≡◌, refl, ap, ◌∙◌, inl, inr, Bool, true, false, Option, none, some, ◌&&◌,
  not, ◌==◌, Bool-cases, Option-cases, lt→ltb, head?, Returns, Result, ◌>>=◌,
}
use usfstl.Time.{two64, sub64, mul64, time_lt, time_ge}
use usfstl.Time.Window.{IsWithin}
use usfstl.Sched.{
  job_scheduled, Sched, Hooks, ReqStatus, sched_time, next_pending, external_request, request_hook,
}
use usfstl.Sched.Sound.{view, IsSound}
use usfstl.Sched.Quiet.{IsQuiet, Returns-bind, Returns-mono}
use usfstl.Sched.Add.{IsTidy}
use usfstl.Sched.Link.{
  Link, Linked, to_parent, link_get_time, link_request, link_hooks, link, unlink,
}
use usfstl.Sched.Link.Ticks.{ticks_at_link}
use usfstl.Sched.Link.Request.{Granted, link_request-Granted, del_job_time, del_job_unscheduled}

-- A request that the callback answers, or that is not passed on.
request_hook_cases :
    {E : Type 0} (hooks : Hooks E) (f : Sched E → ℕ → Result (Sched E × ReqStatus)) (s : Sched E)
    (time : ℕ) (P : E → Type 0)
    → P s.env
    → Returns
        (f (record s { prev_external_sync = time; prev_external_sync_set = true }) time)
        (λ r. P r.0.env)
    → Returns (request_hook hooks f s time) (λ r. P r.0.env)
unfolding request_hook
request_hook_cases hooks f s time P p h =
    elim (Bool-cases (
      not hooks.disable_skip
      && not s.waiting
      && s.next_external_sync_set
      && time_lt time s.next_external_sync)) [
        | inl e ↦ rw e p
        | inr e ↦
            rw e
              (elim (Bool-cases
                (s.waiting && s.prev_external_sync_set && time == s.prev_external_sync)) [
                  | inl e' ↦ rw e' p
                  | inr e' ↦ rw e' h
                ])
      ]

module _ (hooks : Hooks Bool) (own : Hooks (Option Link)) (fuel : ℕ) (s : Linked)
    (parent : Sched Bool) (job ratio : ℕ) where
  -- The state of the link when it is made.
  abbrev pub new_link : Link
  new_link = record {
    parent = parent;
    offset = sub64 (sched_time hooks parent) (mul64 s.current_time ratio);
    tick_ratio = ratio;
    job = job;
  }

  -- What the caller of usfstl_sched_link sees to: the link, no other integration, and a parent
  -- whose time the first job of the list does not precede.
  pub record IsLinkable : Type 0 where
    pub positive : 0 < ratio
    pub fits : ratio * s.current_time + ratio ≤ two64
    pub clock : sched_time hooks parent < two64
    pub unlinked : s.env ≡ none
    pub request : own.external_request ≡ none
    pub wait : own.external_wait ≡ none
    pub get_time : own.external_get_time ≡ none
    pub set_time : own.external_set_time ≡ none
    pub sound : IsSound (sched_time hooks parent) (view parent)
    pub tidy : IsTidy (view parent) job
    pub group : (parent.jobs job).group < 32
    pub later :
        (j : ℕ)
        → head? s.joblist ≡ some j
        → IsWithin (sched_time hooks parent) (to_parent new_link (s.jobs j).start)
          × (time_ge (to_parent new_link (s.jobs j).start) (sched_time hooks parent) ≡ true)

  -- The link was made, to a parent at the same time.
  abbrev pub IsTied : Option Link → Type 0
  IsTied e =
      (p : Sched Bool) × (e ≡ some (record new_link { parent = p }))
      × (sched_time hooks p ≡ sched_time hooks parent)
      × IsSound (sched_time hooks parent) (view p)

  pub linked_time :
      IsLinkable
      → (e : Option Link) → IsTied e
      → (now : ℕ) → link_get_time hooks e now ≡ s.current_time
  unfolding link_get_time
  linked_time a e (p, b, c, d) now =
      rw (b, c)
        (ticks_at_link ratio s.current_time (sched_time hooks parent) a.positive a.fits a.clock)

  Granted-IsTied :
      (t : Linked) (time : ℕ) (r : Linked × ReqStatus)
      → Granted hooks (sched_time hooks parent) t new_link time r
      → IsTied r.0.env
  Granted-IsTied t time r g = (g.parent, ap (λ (x : Linked). x.env) g.scheduler, g.clock, g.sound)

  module _ (q : IsQuiet hooks) where
    request-IsTied :
        IsLinkable
        → (t : Linked) (time : ℕ) → t.env ≡ some new_link
        → IsWithin (sched_time hooks parent) (to_parent new_link time)
        → time_ge (to_parent new_link time) (sched_time hooks parent) ≡ true
        → Returns (external_request (link_hooks hooks own fuel) t time) (λ r. IsTied r.0.env)
    unfolding external_request
    request-IsTied a t time e w g =
        request_hook_cases (link_hooks hooks own fuel) (link_request hooks) t time IsTied
          (parent, e, refl, a.sound)
          (Returns-mono
            (link_request hooks
              (record t { prev_external_sync = time; prev_external_sync_set = true }) time)
            _ _
            (link_request-Granted hooks q (sched_time hooks parent)
              (record t { prev_external_sync = time; prev_external_sync_set = true }) new_link time
              a.clock a.sound w g a.tidy a.group e)
            (λ r h. Granted-IsTied _ time r h))

    link-IsTied : IsLinkable → Returns (link hooks own fuel s parent job ratio) (λ t. IsTied t.env)
    unfolding link next_pending
    link-IsTied a =
        rw (lt→ltb 0 ratio a.positive, a.unlinked, a.request, a.wait, a.get_time, a.set_time)
          (elim (Option-cases (head? s.joblist)) [
            | inl e ↦ rw e (parent, refl, refl, a.sound)
            | inr (j, e) ↦ rw e (
                Returns-bind
                  (external_request (link_hooks hooks own fuel) (record s { env = some new_link })
                    (s.jobs j).start)
                  _ _ _
                  (request-IsTied a (record s { env = some new_link }) (s.jobs j).start refl
                    (a.later j e).0 (a.later j e).1)
                  (λ r h. h))
          ])

    -- Linking keeps the time of the scheduler that is linked, in its own ticks.
    pub link_clock :
        IsLinkable
        → Returns
            (link hooks own fuel s parent job ratio)
            (λ t. sched_time (link_hooks hooks own fuel) t ≡ s.current_time)
    unfolding sched_time
    link_clock a =
        Returns-mono (link hooks own fuel s parent job ratio) _ _ (link-IsTied a)
          (λ t h. linked_time a t.env h t.current_time)

    -- A scheduler that is linked and unlinked again, while the parent's time stands still, has its
    -- time and no link; the parent has its time, and the link job is on none of its lists.
    pub unlink-link :
        IsLinkable
        → Returns (link hooks own fuel s parent job ratio >>= unlink hooks own fuel) (λ r.
          (r.0.current_time ≡ s.current_time)
          × (r.0.env ≡ none)
          × (sched_time hooks r.1 ≡ sched_time hooks parent)
          × (job_scheduled r.1 job ≡ false))
    unfolding unlink sched_time
    unlink-link a =
        Returns-bind (link hooks own fuel s parent job ratio) (unlink hooks own fuel) _ _
          (link-IsTied a)
          (λ t h. rw h.1 (
            linked_time a _ (h.0, refl, h.2, h.3) t.current_time,
            refl,
            del_job_time h.0 job hooks ∙ h.2,
            del_job_unscheduled h.0 job (sched_time hooks parent) h.3,
          ))
