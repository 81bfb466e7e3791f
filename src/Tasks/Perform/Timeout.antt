-- ===== src/Tasks/Perform/Timeout.antt =====
-- `PerformActionState.timeout`: how long a step may take that performs an action.
use cloudkeeper.Base.{
  ℕ, ◌≤◌, String, ◌≡◌, refl, sym, subst, ap, ◌∙◌, Bool, true, false, Option, none, some, List, [],
  ◌∷◌, arith, inl, inr, ◌⊎◌, Bool-cases, All, IsIn, ltb, if◌then◌else◌, some_inj,
}
use cloudkeeper.Dict.{get}
use cloudkeeper.Subscriptions.Data.{Subscription, Subscriber}
use cloudkeeper.Subscriptions.Handler.{EventIndex, listed}
use cloudkeeper.Tasks.Description.{perform_action}
use cloudkeeper.Tasks.Running.{StepState, max_timeout, timeout_of, timeout_for, longer}
use cloudkeeper.Tasks.Perform.{IsBlocking}

-- Whether `n` is a bound on what the subscribers' subscriptions ask for.
abbrev pub IsWithin : String → ℕ → Subscriber → Type 0
IsWithin type n s = (x : Subscription) → IsBlocking type s x → x.timeout ≤ n

-- `n` is the least bound on `least` and on what the subscribers ask for.
pub record IsLongest (type : String) (least : ℕ) (l : List Subscriber) (n : ℕ) : Type 0 where
  pub own : least ≤ n
  pub others : All (IsWithin type n) l
  pub attained :
      (n ≡ least)
      ⊎ ((s : Subscriber) × (IsIn s l
            × ((x : Subscription) × (IsBlocking type s x × (x.timeout ≡ n)))))

-- What one subscriber does to the longest timeout.
record IsLonger (type : String) (least : ℕ) (s : Subscriber) (n : ℕ) : Type 0 where
  above : least ≤ n
  within : IsWithin type n s
  reached : (n ≡ least) ⊎ ((x : Subscription) × (IsBlocking type s x × (x.timeout ≡ n)))

longer-IsLonger :
    (type : String) (longest : ℕ) (s : Subscriber)
    → IsLonger type longest s (longer longest (get type s.subscriptions))
unfolding longer
longer-IsLonger type longest s = by_option (get type s.subscriptions) refl
  where
    clash :
        {y : Subscription} → get type s.subscriptions ≡ none → get type s.subscriptions ≡ some y → ⊥
    clash e f = cc

    same : {x y : Subscription} → get type s.subscriptions ≡ some x → IsBlocking type s y → y ≡ x
    same e b = some_inj (sym b.subscribed ∙ e)

    idle :
        {x y : Subscription}
        → get type s.subscriptions ≡ some x
        → x.wait_for_completion ≡ false
        → IsBlocking type s y
        → ⊥
    idle {x} {y} e w b = cc (w, b.waits, ap (λ z. z.wait_for_completion) (same e b))

    asked :
        (x : Subscription) (b : Bool)
        → IsBlocking type s x
        → ltb x.timeout longest ≡ b
        → IsLonger type longest s (if b then longest else x.timeout)
    asked x true k e = record {
      above = omega arith;
      within = λ y b.
          subst (λ n. n ≤ longest) (sym (ap (λ z. z.timeout) (same k.subscribed b)))
            (ground (arith, e));
      reached = inl refl;
    }
    asked x false k e = record {
      above = ground (arith, e);
      within = λ y b.
          subst (λ n. n ≤ x.timeout) (sym (ap (λ z. z.timeout) (same k.subscribed b)))
            (omega arith);
      reached = inr (x, (k, refl));
    }

    by_option :
        (o : Option Subscription)
        → get type s.subscriptions ≡ o
        → IsLonger type longest s (longer longest o)
    by_option none e = record {
      above = omega arith;
      within = λ x b. absurd (clash e b.subscribed);
      reached = inl refl;
    }
    by_option (some x) e = elim (Bool-cases x.wait_for_completion) [
      | inr w ↦
          rw w (record {
            above = omega arith;
            within = λ y b. absurd (idle e w b);
            reached = inl refl;
          })
      | inl w ↦ rw w (asked x (ltb x.timeout longest) (record { subscribed = e; waits = w }) refl)
    ]

max_timeout-IsLongest :
    (type : String) (longest : ℕ) (l : List Subscriber)
    → IsLongest type longest l (max_timeout type longest l)
unfolding max_timeout
max_timeout-IsLongest type longest [] = record {
  own = omega arith;
  others = tt;
  attained = inl refl;
}
max_timeout-IsLongest type longest (s ∷ l) =
    let one = longer-IsLonger type longest s in
    let rest = max_timeout-IsLongest type (longer longest (get type s.subscriptions)) l in
    record {
      own = omega (arith, one.above, rest.own);
      others = (λ x b. omega (arith, one.within x b, rest.own), rest.others);
      attained = elim rest.attained [
        | inr (y, found) ↦ inr (y, (inr found.0, found.1))
        | inl e ↦ elim one.reached [
          | inl f ↦ inl (e ∙ f)
          | inr (x, found) ↦ inr (s, (inl refl, (x, (found.0, found.1 ∙ sym e))))
        ]
      ];
    }

-- A step that performs an action may take as long as the longest of its own timeout and those of the
-- subscriptions, of the subscribers to the action, that have to be waited for: no less, and no more.
pub perform-timeout :
    (subs : EventIndex) (s : StepState) (type : String)
    → s.step.action ≡ perform_action type
    → IsLongest type s.step.timeout (listed type subs) (timeout_of subs s)
unfolding timeout_of timeout_for
perform-timeout subs s type acts =
    rw acts (max_timeout-IsLongest type s.step.timeout (listed type subs))
