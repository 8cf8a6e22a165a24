-- ===== src/Notification/Scheduler/Templates.antt =====
-- The query for each event type against a query for each schedule.
use microservices_base_platf.Prelude.{
  ◌≡◌, refl, ap, ◌∙◌, inl, inr, String, Option, none, some, List, [], ◌∷◌, All, All-map, str_eq,
  str_eq_iff, str_eq_refl, Bool-cases, Option-cases,
}
use microservices_base_platf.Notification.Domain.{
  EventType, NotificationTemplate, UserNotificationSchedule,
}
use microservices_base_platf.Notification.Creation.{Library}
use microservices_base_platf.Notification.Scheduler.{
  Clock, World, Answers, TemplateCache, cached, find_template, add_template, fill_cache,
  template_in, process_schedule, process_all, process_found, process_due_schedules,
  find_due_candidates,
}

module _ (a : Answers) (templates : List NotificationTemplate) where
  -- Each entry holds what its own query finds.
  abbrev IsFaithful : TemplateCache → Type 0
  IsFaithful = All (λ e. e.1 ≡ find_template a templates e.0)

  abbrev IsCached : TemplateCache → UserNotificationSchedule → Type 0
  IsCached cache s =
      (e : EventType × Option NotificationTemplate) × (cached s.event_type cache ≡ some e)

  add-IsFaithful :
      (event : EventType) (o : Option (EventType × Option NotificationTemplate))
      (cache : TemplateCache)
      → IsFaithful cache
      → IsFaithful (add_template a templates event o cache)
  add-IsFaithful event none cache h = (refl, h)
  add-IsFaithful event (some e) cache h = h

  add-cached :
      (event : EventType) (cache : TemplateCache)
      → (e : EventType × Option NotificationTemplate) × (cached event
            (add_template a templates event (cached event cache) cache)
          ≡ some e)
  add-cached event cache = elim (Option-cases (cached event cache)) [
    | inl n ↦ ((event, find_template a templates event), rw n (rw (str_eq_refl event) refl))
    | inr (e, n) ↦ (e, rw (n, n) refl)
  ]

  add-keeps :
      (event other : EventType) (o : Option (EventType × Option NotificationTemplate))
      (cache : TemplateCache)
      → ((e : EventType × Option NotificationTemplate) × (cached other cache ≡ some e))
      → (e : EventType × Option NotificationTemplate) × (cached other
            (add_template a templates event o cache)
          ≡ some e)
  add-keeps event other none cache (e, h) = elim (Bool-cases (str_eq event other)) [
    | inl y ↦ ((event, find_template a templates event), rw y refl)
    | inr n ↦ (e, rw n h)
  ]
  add-keeps event other (some x) cache h = h

  fill-IsFaithful :
      (ss : List UserNotificationSchedule) (cache : TemplateCache)
      → IsFaithful cache
      → IsFaithful (fill_cache a templates ss cache)
  unfolding fill_cache
  fill-IsFaithful [] cache h = h
  fill-IsFaithful (s ∷ ss) cache h =
      fill-IsFaithful ss _ (add-IsFaithful s.event_type (cached s.event_type cache) cache h)

  fill-keeps :
      (ss : List UserNotificationSchedule) (other : EventType) (cache : TemplateCache)
      → ((e : EventType × Option NotificationTemplate) × (cached other cache ≡ some e))
      → (e : EventType × Option NotificationTemplate) × (cached other
            (fill_cache a templates ss cache)
          ≡ some e)
  unfolding fill_cache
  fill-keeps [] other cache h = h
  fill-keeps (s ∷ ss) other cache h =
      fill-keeps ss other _ (add-keeps s.event_type other (cached s.event_type cache) cache h)

  fill-IsCached :
      (ss : List UserNotificationSchedule) (cache : TemplateCache)
      → All (IsCached (fill_cache a templates ss cache)) ss
  unfolding fill_cache
  fill-IsCached [] cache = tt
  fill-IsCached (s ∷ ss) cache =
      (fill-keeps ss s.event_type _ (add-cached s.event_type cache), fill-IsCached ss _)

  -- What a lookup in a faithful cache finds.
  lookup :
      (cache : TemplateCache)
      → IsFaithful cache
      → (event : EventType)
      → ((e : EventType × Option NotificationTemplate) × (cached event cache ≡ some e))
      → template_in (cached event cache) ≡ find_template a templates event
  lookup ((x, t) ∷ cache) h event k = elim (Bool-cases (str_eq x event)) [
    | inl y ↦ rw y (h.0 ∙ ap (find_template a templates) ((str_eq_iff x event).0 y))
    | inr n ↦ rw n (lookup cache h.1 event (rw n at k))
  ]
  lookup [] h event (e, k) = cc

module _ {Payload Metadata : Type 0} (lib : Library Payload Metadata) (clock : Clock)
    (decode : String → Option Payload) (empty : Payload) (a : Answers) where
  process_all-ext :
      (f g : EventType → Option NotificationTemplate) (ss : List UserNotificationSchedule)
      (w : World)
      → All (λ s. f s.event_type ≡ g s.event_type) ss
      → process_all lib clock decode empty a f ss w ≡ process_all lib clock decode empty a g ss w
  unfolding process_all
  process_all-ext f g [] w h = refl
  process_all-ext f g (s ∷ ss) w h =
      ap
        (λ t.
          process_all lib clock decode empty a f ss
            (process_schedule lib clock decode empty a s t w))
        h.0
      ∙ process_all-ext f g ss _ h.1

-- Looking up the template of each event type once, before the schedules are processed, comes to the
-- same as looking it up for each schedule: the same notifications, marks and errors.
pub process_due_schedules-direct :
    {Payload Metadata : Type 0} (lib : Library Payload Metadata) (clock : Clock)
    (decode : String → Option Payload) (empty : Payload) (a : Answers) (w : World)
    → a.find_candidates ≡ none
    → process_due_schedules lib clock decode empty a w ≡ (
      none,
      process_all lib clock decode empty a
          (find_template a w.templates)
          (find_due_candidates a.now w.schedules)
          w,
    )
unfolding process_due_schedules
process_due_schedules-direct lib clock decode empty a w h =
    ap (λ o. process_found lib clock decode empty a o w) h
    ∙ ap (λ v. (none, v))
        (process_all-ext lib clock decode empty a _ _ ss w (
          All-map (IsCached a w.templates cache)
            (λ s.
              template_in (cached s.event_type cache) ≡ find_template a w.templates s.event_type)
            (λ s k.
              lookup a w.templates cache (fill-IsFaithful a w.templates ss [] tt) s.event_type k)
            ss (fill-IsCached a w.templates ss [])))
  where
    ss : List UserNotificationSchedule
    ss = find_due_candidates a.now w.schedules

    cache : TemplateCache
    cache = fill_cache a w.templates ss []
