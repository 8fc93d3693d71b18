-- ===== src/OneToMany/Loops.antt =====
-- OneToManyProcessor.cpp: what the loops over the subscribers do to their sinks.
use erizo.Base.{
  ℕ, ◌≡◌, subst, refl, ◌⊎◌, Bool, true, false, [], ◌∷◌, Option, none, some, Bytes, ◌==◌, equal,
  arith, Bool-cases, inl, inr,
}
use erizo.OneToMany.Processor.{
  Sink, Source, Subscribers, Processor, update_sink, for_each, find, close_one, with_ssrcs,
  update_ssrcs, close_all,
}

module _ (Q : Sink → Type 0) (f : Sink → Sink) (h : (s : Sink) → Q (f s)) where
  update_sink_holds : (p : Processor) (n s : ℕ) → Q (p.sinks s) → Q ((update_sink p n f).sinks s)
  update_sink_holds p n s q = elim (Bool-cases (s == n)) [
    | inl e ↦ rw e (h (p.sinks s))
    | inr e ↦ rw e q
  ]

  for_each_holds :
      (m : Subscribers) (p : Processor) (s : ℕ) → Q (p.sinks s) → Q ((for_each m f p).sinks s)
  unfolding for_each
  for_each_holds [] p s q = q
  for_each_holds ((k, t) ∷ m) p s q =
      for_each_holds m (update_sink p t f) s (update_sink_holds p t s q)

  update_sink_sets : (p : Processor) (n : ℕ) → Q ((update_sink p n f).sinks n)
  update_sink_sets p n = elim (Bool-cases (n == n)) [
    | inl e ↦ rw e (h (p.sinks n))
    | inr e ↦ absurd (ground arith)
  ]

  -- After a loop over the subscribers each subscribed sink is as the loop's body leaves a sink.
  for_each_all :
      (m : Subscribers) (p : Processor) (k : Bytes) (s : ℕ)
      → find m k ≡ some s
      → Q ((for_each m f p).sinks s)
  unfolding for_each find
  for_each_all [] p k s e = cc
  for_each_all ((j, t) ∷ m) p k s e = elim (Bool-cases (equal j k)) [
    | inl same ↦
        let t_s : t ≡ s = cc (rw same at e) in
        for_each_holds m (update_sink p t f) s
          (subst (λ n. Q ((update_sink p t f).sinks n)) t_s (update_sink_sets p t))
    | inr other ↦ for_each_all m (update_sink p t f) k s (rw other at e)
  ]

abbrev pub publisher_closed : Option Source → Bool
publisher_closed none = false
publisher_closed (some source) = source.closed

-- `closeAll` closes every subscribed sink, whatever name it has, and the publisher.
pub close_all_closes :
    (p q : Processor) (k : Bytes) (s : ℕ)
    → close_all p ≡ some q
    → find p.subscribers k ≡ some s
    → ((q.sinks s).closed ≡ true) × (publisher_closed q.publisher ≡ true)
unfolding close_all
close_all_closes p q k s e f =
    ground (arith, for_each_all (λ x. x.closed ≡ true) close_one (λ x. refl) p.subscribers p k s f)

Subscribers-cases :
    (m : Subscribers) → (m ≡ []) ⊎ ((x : Bytes × ℕ) × (xs : Subscribers) × (m ≡ x ∷ xs))
Subscribers-cases [] = inl refl
Subscribers-cases (x ∷ xs) = inr (x, xs, refl)

-- `updateSsrcs` gives every subscribed sink the publisher's two SSRCs.
update_ssrcs_all :
    (p q : Processor) (source : Source) (k : Bytes) (s : ℕ)
    → p.publisher ≡ some source
    → update_ssrcs p ≡ some q
    → find p.subscribers k ≡ some s
    → ((q.sinks s).audio_sink_ssrc ≡ source.audio_source_ssrc)
      × ((q.sinks s).video_sink_ssrc ≡ source.video_source_ssrc)
unfolding update_ssrcs find
update_ssrcs_all p q source k s known e f = elim (Subscribers-cases p.subscribers) [
  | inl none_yet ↦ cc (rw none_yet at f)
  | inr (x, xs, some_yet) ↦ ground (
    arith,
    for_each_all
        (λ sink.
          (sink.audio_sink_ssrc ≡ source.audio_source_ssrc)
          × (sink.video_sink_ssrc ≡ source.video_source_ssrc))
        (with_ssrcs source) (λ sink. (refl, refl)) p.subscribers p k s f,
  )
]
