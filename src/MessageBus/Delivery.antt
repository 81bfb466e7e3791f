-- ===== src/MessageBus/Delivery.antt =====
-- Who gets a message that is emitted.
use cloudkeeper.Base.{
  ℕ, zero, suc, ◌+◌, String, ◌≡◌, refl, sym, ap, ◌∙◌, Bool, true, false, Option, none, some, List,
  [], ◌∷◌, ◌++◌, arith, inl, inr, Bool-cases, nat_eq, str_eq, str_eq_iff, if◌then◌else◌, map,
}
use cloudkeeper.Dict.{Dict, get, get-put}
use cloudkeeper.Tasks.Messages.{Message, event, message_type}
use cloudkeeper.MessageBus.Ops.{
  Bus, queues_of, emit_by, emit, add_listener, add_listeners, channel_list, connection, subscribe,
}

-- The messages that were put into a queue.
unfoldable pub received : ℕ → List (ℕ × Message) → List Message
received q [] = []
received q ((p, m) ∷ l) = let rest = received q l in if nat_eq p q then m ∷ rest else rest

-- How often a queue stands in a list, and a channel in a list of channels.
unfoldable pub times : ℕ → List ℕ → ℕ
times q [] = 0
times q (p ∷ l) = let rest = times q l in if nat_eq p q then suc rest else rest

unfoldable pub occurrences : String → List String → ℕ
occurrences n [] = 0
occurrences n (c ∷ l) = let rest = occurrences n l in if str_eq c n then suc rest else rest

abbrev pub copies : {A : Type 0} → ℕ → A → List A
copies zero m = []
copies (suc n) m = m ∷ copies n m

append_assoc : {A : Type 0} (a b c : List A) → (a ++ b) ++ c ≡ a ++ (b ++ c)
append_assoc [] b c = refl
append_assoc (x ∷ a) b c = ap (λ l. x ∷ l) (append_assoc a b c)

pub append-nil : {A : Type 0} (a : List A) → a ++ [] ≡ a
append-nil [] = refl
append-nil (x ∷ a) = ap (λ l. x ∷ l) (append-nil a)

append-copies : (a b : ℕ) (m : Message) → copies a m ++ copies b m ≡ copies (a + b) m
append-copies zero b m = ap (λ n. copies n m) no_more
  where
    no_more : b ≡ 0 + b
    no_more = omega arith
append-copies (suc a) b m = ap (λ l. m ∷ l) (append-copies a b m) ∙ ap (λ n. copies n m) one_more
  where
    one_more : suc (a + b) ≡ suc a + b
    one_more = omega arith

received-append :
    (q : ℕ) (a b : List (ℕ × Message)) → received q (a ++ b) ≡ received q a ++ received q b
unfolding received
received-append q [] b = refl
received-append q ((p, m) ∷ a) b = elim (Bool-cases (nat_eq p q)) [
  | inl e ↦ rw e (ap (λ l. m ∷ l) (received-append q a b))
  | inr e ↦ rw e (received-append q a b)
]

received_one :
    (q : ℕ) (m : Message) (qs : List ℕ) → received q (map (λ p. (p, m)) qs) ≡ copies (times q qs) m
unfolding received times
received_one q m [] = refl
received_one q m (p ∷ qs) = elim (Bool-cases (nat_eq p q)) [
  | inl e ↦ rw e (ap (λ l. m ∷ l) (received_one q m qs))
  | inr e ↦ rw e (received_one q m qs)
]

received-emit_by :
    (q : ℕ) (name : String) (m : Message) (b : Bus)
    → received q (emit_by name m b).delivered
      ≡ received q b.delivered ++ copies (times q (queues_of name b.listeners)) m
unfolding emit_by
received-emit_by q name m b =
    received-append q b.delivered (map (λ p. (p, m)) (queues_of name b.listeners))
    ∙ ap (λ l. received q b.delivered ++ l) (received_one q m (queues_of name b.listeners))

-- `emit` puts a message into a queue once for each time that the queue listens on the channel of the
-- message's type, and once for each time that it listens on the channel `*`: nobody else gets it.
pub received-emit :
    (q : ℕ) (m : Message) (b : Bus)
    → received q (emit m b).delivered
      ≡ received q b.delivered
        ++ copies
            (times q (queues_of (message_type m) b.listeners) + times q (queues_of "*" b.listeners))
            m
unfolding emit
received-emit q m b =
    received-emit_by q "*" m (emit_by (message_type m) m b)
    ∙ ap (λ l. l ++ copies everywhere m) (received-emit_by q (message_type m) m b)
    ∙ append_assoc (received q b.delivered) (copies here m) (copies everywhere m)
    ∙ ap (λ l. received q b.delivered ++ l) (append-copies here everywhere m)
  where
    here : ℕ
    here = times q (queues_of (message_type m) b.listeners)

    everywhere : ℕ
    everywhere = times q (queues_of "*" b.listeners)

pub queues_of-add_listener :
    (q : ℕ) (name n : String) (l : Dict (List ℕ))
    → queues_of n (add_listener q name l)
      ≡ (if str_eq name n then queues_of n l ++ q ∷ [] else queues_of n l)
unfolding add_listener
queues_of-add_listener q name n l =
    ap (λ o. elim o [ none ↦ [] | some qs ↦ qs ]) (get-put name n (queues_of name l ++ q ∷ []) l)
    ∙ by_name (str_eq name n) (str_eq_iff name n).0
  where
    by_name :
        (e : Bool)
        → (e ≡ true → name ≡ n)
        → elim (if e then some (queues_of name l ++ q ∷ []) else get n l) [
          | none ↦ []
          | some qs ↦ qs
        ]
          ≡ (if e then queues_of n l ++ q ∷ [] else queues_of n l)
    by_name true same = ap (λ i. queues_of i l ++ q ∷ []) (same refl)
    by_name false same = refl

append-copies_one :
    (k : ℕ) (q : ℕ) (a : List ℕ) → (a ++ q ∷ []) ++ copies k q ≡ a ++ copies (suc k) q
append-copies_one k q a = append_assoc a (q ∷ []) (copies k q)

pub queues_of-add_listeners :
    (q : ℕ) (names : List String) (n : String) (l : Dict (List ℕ))
    → queues_of n (add_listeners q names l) ≡ queues_of n l ++ copies (occurrences n names) q
unfolding add_listeners occurrences
queues_of-add_listeners q [] n l = sym (append-nil (queues_of n l))
queues_of-add_listeners q (c ∷ names) n l =
    queues_of-add_listeners q names n (add_listener q c l)
    ∙ ap (λ a. a ++ copies (occurrences n names) q) (queues_of-add_listener q c n l)
    ∙ by_channel (str_eq c n)
  where
    by_channel :
        (e : Bool)
        → (if e then queues_of n l ++ q ∷ [] else queues_of n l) ++ copies (occurrences n names) q
          ≡ queues_of n l ++ copies (if e then suc (occurrences n names) else occurrences n names) q
    by_channel true = append-copies_one (occurrences n names) q (queues_of n l)
    by_channel false = refl

-- No list of listeners has the queue.
abbrev pub IsFresh : ℕ → Dict (List ℕ) → Type 0
IsFresh q l = (n : String) → times q (queues_of n l) ≡ 0

pub nat_eq_refl : (q : ℕ) → nat_eq q q ≡ true
nat_eq_refl q = ground arith

times-copies : (q k : ℕ) (l : List ℕ) → times q l ≡ 0 → times q (l ++ copies k q) ≡ k
unfolding times
times-copies q zero [] h = refl
times-copies q (suc k) [] h = rw (nat_eq_refl q) (ap suc (times-copies q k [] refl))
times-copies q k (p ∷ l) h = elim (Bool-cases (nat_eq p q)) [
  | inl e ↦ absurd (clash (rw e at h))
  | inr e ↦ rw e (times-copies q k l (rw e at h))
]
  where
    clash : suc (times q l) ≡ 0 → ⊥
    clash z = omega (arith, z)

pub emit-listeners : (m : Message) (b : Bus) → (emit m b).listeners ≡ b.listeners
unfolding emit emit_by
emit-listeners m b = refl

-- A listener whose queue is new gets a message that is emitted after it has subscribed once for each
-- time that its list of channels has the type of the message or the channel `*`, and it gets nothing
-- else: not the event that tells of its own connection, and no message of another type. If it names no
-- channel, its list is the channel `*`.
pub subscribe-emit :
    (id : String) (channels : Option (List String)) (q : ℕ) (m : Message) (b : Bus)
    → IsFresh q b.listeners
    → received q (emit m (subscribe id channels q b)).delivered
      ≡ received q b.delivered
        ++ copies
            (occurrences (message_type m) (channel_list channels)
              + occurrences "*" (channel_list channels))
            m
unfolding subscribe
subscribe-emit id channels q m b fresh =
    received-emit q m (subscribe id channels q b)
    ∙ ap
        (λ l.
          l
          ++ copies
              (times q (queues_of (message_type m) (subscribe id channels q b).listeners)
                + times q (queues_of "*" (subscribe id channels q b).listeners))
              m)
        before
    ∙ ap
        (λ k.
          received q b.delivered
          ++ copies (k + times q (queues_of "*" (subscribe id channels q b).listeners)) m)
        (listening (message_type m))
    ∙ ap
        (λ k.
          received q b.delivered
          ++ copies (occurrences (message_type m) (channel_list channels) + k) m)
        (listening "*")
  where
    told : Message
    told = event "message-listener-connected" (connection id channels)

    untold :
        times q (queues_of (message_type told) b.listeners) + times q (queues_of "*" b.listeners)
        ≡ 0
    untold = omega (arith, fresh (message_type told), fresh "*")

    before : received q (emit told b).delivered ≡ received q b.delivered
    before =
        received-emit q told b
        ∙ ap (λ k. received q b.delivered ++ copies k told) untold
        ∙ append-nil (received q b.delivered)

    listening :
        (n : String)
        → times q (queues_of n (subscribe id channels q b).listeners)
          ≡ occurrences n (channel_list channels)
    listening n =
        ap (λ l. times q (queues_of n (add_listeners q (channel_list channels) l)))
          (emit-listeners told b)
        ∙ ap (times q) (queues_of-add_listeners q (channel_list channels) n b.listeners)
        ∙ times-copies q (occurrences n (channel_list channels)) (queues_of n b.listeners) (fresh n)
