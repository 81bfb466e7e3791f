-- ===== src/MessageBus/Leaving.antt =====
-- A listener that leaves the bus.
use cloudkeeper.Base.{
  ℕ, suc, String, ◌≡◌, refl, ap, ◌∙◌, Bool, true, false, Option, none, some, List, [], ◌∷◌, ◌++◌,
  arith, inl, inr, Bool-cases, nat_eq, str_eq, str_eq_iff, str_eq_refl, if◌then◌else◌,
}
use cloudkeeper.Dict.{Dict, get, has, pop, get-put, get-pop, has-pop}
use cloudkeeper.Tasks.Messages.{Message, event}
use cloudkeeper.MessageBus.Ops.{
  Bus, queues_of, emit, emit_by, add_listeners, remove_queue, put_unless_empty, remove_listener,
  remove_listeners, channel_list, connection, subscribe, unsubscribe,
}
use cloudkeeper.MessageBus.Delivery.{
  times, occurrences, copies, IsFresh, nat_eq_refl, queues_of-add_listeners, emit-listeners,
  append-nil,
}

remove_queue-copies :
    (q k : ℕ) (l : List ℕ)
    → times q l ≡ 0
    → remove_queue q (l ++ copies (suc k) q) ≡ some (l ++ copies k q)
unfolding remove_queue times
remove_queue-copies q k [] h = rw (nat_eq_refl q) refl
remove_queue-copies q k (p ∷ l) h = elim (Bool-cases (nat_eq p q)) [
  | inl e ↦ absurd (clash (rw e at h))
  | inr e ↦ rw (e, remove_queue-copies q k l (rw e at h)) refl
]
  where
    clash : suc (times q l) ≡ 0 → ⊥
    clash z = omega (arith, z)

queues_of-put_unless_empty :
    (name n : String) (qs : List ℕ) (l : Dict (List ℕ))
    → queues_of n (put_unless_empty name qs l) ≡ (if str_eq name n then qs else queues_of n l)
unfolding put_unless_empty
queues_of-put_unless_empty name n [] l =
    ap (λ o. elim o [ none ↦ [] | some qs ↦ qs ]) (get-pop name n l) ∙ by_name (str_eq name n)
  where
    by_name :
        (e : Bool)
        → elim (if e then none else get n l) [ none ↦ [] | some qs ↦ qs ]
          ≡ (if e then [] else queues_of n l)
    by_name true = refl
    by_name false = refl
queues_of-put_unless_empty name n (q ∷ qs) l =
    ap (λ o. elim o [ none ↦ [] | some r ↦ r ]) (get-put name n (q ∷ qs) l)
    ∙ by_name (str_eq name n)
  where
    by_name :
        (e : Bool)
        → elim (if e then some (q ∷ qs) else get n l) [ none ↦ [] | some r ↦ r ]
          ≡ (if e then q ∷ qs else queues_of n l)
    by_name true = refl
    by_name false = refl

-- The lists of listeners are those of `base`, with the queue behind them as often as the channels say.
IsListening : ℕ → List String → Dict (List ℕ) → Dict (List ℕ) → Type 0
IsListening q names base l =
    (n : String) → queues_of n l ≡ queues_of n base ++ copies (occurrences n names) q

remove_listener-IsListening :
    (q : ℕ) (c : String) (names : List String) (base l : Dict (List ℕ))
    → IsFresh q base
    → IsListening q (c ∷ names) base l
    → (r : Dict (List ℕ)) × ((remove_listener q c l ≡ some r) × IsListening q names base r)
unfolding remove_listener occurrences IsListening
remove_listener-IsListening q c names base l fresh h = (
  put_unless_empty c left l,
  (
    removed,
    λ n. queues_of-put_unless_empty c n left l ∙ by_name n (str_eq c n) (str_eq_iff c n).0 (h n),
  ),
)
  where
    left : List ℕ
    left = queues_of c base ++ copies (occurrences c names) q

    here : queues_of c l ≡ queues_of c base ++ copies (suc (occurrences c names)) q
    here = h c ∙ rw (str_eq_refl c) refl

    found : remove_queue q (queues_of c l) ≡ some left
    found =
        ap (remove_queue q) here
        ∙ remove_queue-copies q (occurrences c names) (queues_of c base) (fresh c)

    removed :
        elim (remove_queue q (queues_of c l)) [
          | none ↦ none
          | some qs ↦ some (put_unless_empty c qs l)
        ]
        ≡ some (put_unless_empty c left l)
    removed = ap (λ o. elim o [ none ↦ none | some qs ↦ some (put_unless_empty c qs l) ]) found

    by_name :
        (n : String) (e : Bool)
        → (e ≡ true → c ≡ n)
        → queues_of n l
          ≡ queues_of n base
            ++ copies (if e then suc (occurrences n names) else occurrences n names) q
        → (if e then left else queues_of n l) ≡ queues_of n base ++ copies (occurrences n names) q
    by_name n true same k = ap (λ i. queues_of i base ++ copies (occurrences i names) q) (same refl)
    by_name n false same k = k

remove_listeners-IsListening :
    (q : ℕ) (names : List String) (base l : Dict (List ℕ))
    → IsFresh q base
    → IsListening q names base l
    → (r : Dict (List ℕ)) × ((remove_listeners q names l ≡ some r) × IsListening q [] base r)
unfolding remove_listeners
remove_listeners-IsListening q [] base l fresh h = (l, (refl, h))
remove_listeners-IsListening q (c ∷ names) base l fresh h =
    let (r, one) = remove_listener-IsListening q c names base l fresh h in
    let (s, rest) = remove_listeners-IsListening q names base r fresh one.1 in
    (
      s,
      (
        ap (λ o. elim o [ none ↦ none | some x ↦ remove_listeners q names x ]) one.0 ∙ rest.0,
        rest.1,
      ),
    )

emit-active_listener : (m : Message) (b : Bus) → (emit m b).active_listener ≡ b.active_listener
unfolding emit emit_by
emit-active_listener m b = refl

subscribe-listeners :
    (id : String) (channels : Option (List String)) (q : ℕ) (b : Bus)
    → (subscribe id channels q b).listeners ≡ add_listeners q (channel_list channels) b.listeners
unfolding subscribe
subscribe-listeners id channels q b =
    ap (add_listeners q (channel_list channels))
      (emit-listeners (event "message-listener-connected" (connection id channels)) b)

-- What a listener leaves behind.
pub record IsLeft (id : String) (before after : Bus) : Type 0 where
  pub queues : (n : String) → queues_of n after.listeners ≡ queues_of n before.listeners
  pub inactive : has id after.active_listener ≡ false

-- A listener whose queue is new subscribes, and leaves when the table of listeners is the one that it
-- was after it subscribed: no error is raised, each channel has the queues that it had before, in
-- their order, and the subscriber is not among the active ones, whether it was there before or not.
pub subscribe-unsubscribe :
    (id : String) (channels : Option (List String)) (q : ℕ) (b w : Bus)
    → IsFresh q b.listeners
    → w.listeners ≡ (subscribe id channels q b).listeners
    → (c : Bus) × ((unsubscribe id channels q w ≡ some c) × IsLeft id b c)
unfolding unsubscribe IsListening occurrences
subscribe-unsubscribe id channels q b w fresh same =
    let (r, gone) =
      remove_listeners-IsListening q (channel_list channels) b.listeners w.listeners fresh
        listening in
    (
      emit leaving (without r),
      (
        ap (λ o. elim o [ none ↦ none | some l ↦ some (emit leaving (without l)) ]) gone.0,
        record {
          queues = λ n.
              ap (queues_of n) (emit-listeners leaving (without r))
              ∙ gone.1 n
              ∙ append-nil (queues_of n b.listeners);
          inactive =
              ap (has id) (emit-active_listener leaving (without r))
              ∙ has-pop id id w.active_listener
              ∙ rw (str_eq_refl id) refl;
        },
      ),
    )
  where
    leaving : Message
    leaving = event "message-listener-disconnected" (connection id channels)

    without : Dict (List ℕ) → Bus
    without l = record w { listeners = l; active_listener = pop id w.active_listener }

    listening : IsListening q (channel_list channels) b.listeners w.listeners
    listening n =
        ap (queues_of n) (same ∙ subscribe-listeners id channels q b)
        ∙ queues_of-add_listeners q (channel_list channels) n b.listeners
