-- ===== src/Dependencies/Laws.antt =====
-- src/dependencies/dependency_state.py: what is chosen, and what is read.
use billing_recovery_executi.Common.{
  String, Bool, true, false, Option, none, some, [], ◌∷◌, ◌≡◌, ◌≢◌, refl, ap, sym, ◌∙◌, arith,
  eq_iff, ne_of_test,
}
use billing_recovery_executi.Dependencies.{
  Session, lookup, assign, initialize_mode, initialize_dependency_modes, get_openai_mode,
  get_stripe_mode, set_openai_mode, set_stripe_mode, is_stripe_live, is_openai_live,
  is_stripe_forced_mock, is_openai_forced_mock, equals, openai_mode_session_key,
  stripe_mode_session_key,
}
use billing_recovery_executi.Rules.DependencyModes.{
  dependency_mode_forced_mock, dependency_mode_live,
}

modes_differ : dependency_mode_forced_mock ≢ dependency_mode_live
modes_differ = ne_of_test _ _ refl

keys_differ : openai_mode_session_key ≢ stripe_mode_session_key
keys_differ = ne_of_test _ _ refl

lookup-assign_self : (k v : String) (s : Session) → lookup k (assign k v s) ≡ some v
lookup-assign_self k v [] = ground (arith, eq_iff k k)
lookup-assign_self k v ((j, w) ∷ s) =
    ground (arith, eq_iff k k, eq_iff k j, lookup-assign_self k v s)

lookup-assign_ne : (j k v : String) (s : Session) → j ≢ k → lookup j (assign k v s) ≡ lookup j s
lookup-assign_ne j k v [] h = ground (arith, eq_iff j k)
lookup-assign_ne j k v ((i, w) ∷ s) h =
    ground (arith, eq_iff j k, eq_iff j i, eq_iff k i, lookup-assign_ne j k v s h)

-- What the dictionary holds, or the default mode.
abbrev pub chosen : Option String → String
chosen none = dependency_mode_forced_mock
chosen (some mode) = mode

lookup-initialize_mode_self :
    (k : String) (s : Session) → lookup k (initialize_mode k s) ≡ some (chosen (lookup k s))
unfolding initialize_mode
lookup-initialize_mode_self k s = ground (arith, lookup-assign_self k dependency_mode_forced_mock s)

lookup-initialize_mode_ne :
    (j k : String) (s : Session) → j ≢ k → lookup j (initialize_mode k s) ≡ lookup j s
unfolding initialize_mode
lookup-initialize_mode_ne j k s h =
    ground (arith, lookup-assign_ne j k dependency_mode_forced_mock s h)

get_openai_mode-chosen :
    (s : Session) → (get_openai_mode s).0 ≡ some (chosen (lookup openai_mode_session_key s))
unfolding get_openai_mode initialize_dependency_modes
get_openai_mode-chosen s =
    lookup-initialize_mode_ne _ _ _ keys_differ ∙ lookup-initialize_mode_self _ s

get_stripe_mode-chosen :
    (s : Session) → (get_stripe_mode s).0 ≡ some (chosen (lookup stripe_mode_session_key s))
unfolding get_stripe_mode initialize_dependency_modes
get_stripe_mode-chosen s =
    lookup-initialize_mode_self _ _
    ∙ ap (λ o. some (chosen o)) (lookup-initialize_mode_ne _ _ s λ e. keys_differ (sym e))

abbrev kept : Option String → Option String
kept o = some (chosen o)

stripe_set :
    (mode : String) (s : Session)
    → lookup stripe_mode_session_key (set_stripe_mode mode s) ≡ some mode
unfolding set_stripe_mode
stripe_set mode s = lookup-assign_self _ mode s

openai_set :
    (mode : String) (s : Session)
    → lookup openai_mode_session_key (set_openai_mode mode s) ≡ some mode
unfolding set_openai_mode
openai_set mode s = lookup-assign_self _ mode s

openai_kept :
    (mode : String) (s : Session)
    → lookup openai_mode_session_key (set_stripe_mode mode s) ≡ lookup openai_mode_session_key s
unfolding set_stripe_mode
openai_kept mode s = lookup-assign_ne _ _ mode s keys_differ

stripe_kept :
    (mode : String) (s : Session)
    → lookup stripe_mode_session_key (set_openai_mode mode s) ≡ lookup stripe_mode_session_key s
unfolding set_openai_mode
stripe_kept mode s = lookup-assign_ne _ _ mode s λ e. keys_differ (sym e)

stripe_read :
    (s : Session)
    → lookup stripe_mode_session_key (get_openai_mode s).1
      ≡ some (chosen (lookup stripe_mode_session_key s))
unfolding get_openai_mode get_stripe_mode
stripe_read s = get_stripe_mode-chosen s

openai_read :
    (s : Session)
    → lookup openai_mode_session_key (get_stripe_mode s).1
      ≡ some (chosen (lookup openai_mode_session_key s))
unfolding get_openai_mode get_stripe_mode
openai_read s = get_openai_mode-chosen s

-- A mode that is set is the mode that is read, for either dependency; setting one leaves the mode of
-- the other, and so does a read, which initializes the session. A read never misses its key: with no
-- mode set it gives forced_mock.
pub get_mode-set_mode :
    (mode : String) (s : Session)
    → ((get_stripe_mode (set_stripe_mode mode s)).0 ≡ some mode)
      × ((get_openai_mode (set_openai_mode mode s)).0 ≡ some mode)
      × ((get_openai_mode (set_stripe_mode mode s)).0 ≡ (get_openai_mode s).0)
      × ((get_stripe_mode (set_openai_mode mode s)).0 ≡ (get_stripe_mode s).0)
      × ((get_stripe_mode (get_openai_mode s).1).0 ≡ (get_stripe_mode s).0)
      × ((get_openai_mode (get_stripe_mode s).1).0 ≡ (get_openai_mode s).0)
      × ((get_stripe_mode s).0 ≡ some (chosen (lookup stripe_mode_session_key s)))
      × ((get_openai_mode s).0 ≡ some (chosen (lookup openai_mode_session_key s)))
get_mode-set_mode mode s = (
  get_stripe_mode-chosen _ ∙ ap kept (stripe_set mode s),
  get_openai_mode-chosen _ ∙ ap kept (openai_set mode s),
  get_openai_mode-chosen _ ∙ ap kept (openai_kept mode s) ∙ sym (get_openai_mode-chosen s),
  get_stripe_mode-chosen _ ∙ ap kept (stripe_kept mode s) ∙ sym (get_stripe_mode-chosen s),
  get_stripe_mode-chosen _ ∙ ap kept (stripe_read s) ∙ sym (get_stripe_mode-chosen s),
  get_openai_mode-chosen _ ∙ ap kept (openai_read s) ∙ sym (get_openai_mode-chosen s),
  get_stripe_mode-chosen s,
  get_openai_mode-chosen s,
)

chosen_live :
    (o : Option String)
    → equals (some (chosen o)) dependency_mode_live ≡ some true
    → (o ≡ some dependency_mode_live)
      × (equals (some (chosen o)) dependency_mode_forced_mock ≡ some false)
chosen_live none h = absurd (modes_differ ((eq_iff _ _).0 (some_injective h)))
  where
    some_injective : {a b : Bool} → some a ≡ some b → a ≡ b
    some_injective h = cc
chosen_live (some mode) h =
    ground (
      arith,
      modes_differ,
      eq_iff mode dependency_mode_live,
      eq_iff mode dependency_mode_forced_mock,
    )

read_live :
    (read o : Option String)
    → read ≡ some (chosen o)
    → equals read dependency_mode_live ≡ some true
    → (o ≡ some dependency_mode_live) × (equals read dependency_mode_forced_mock ≡ some false)
read_live read o e h =
    let (live, unforced) = chosen_live o (ap (λ r. equals r dependency_mode_live) (sym e) ∙ h) in
    (live, ap (λ r. equals r dependency_mode_forced_mock) e ∙ unforced)

-- No dependency is live unless the mode live was set for it, and none is live and forced at once.
pub is_live_chosen :
    (s : Session)
    → ((is_stripe_live s).0 ≡ some true
        → lookup stripe_mode_session_key s ≡ some dependency_mode_live)
      × ((is_openai_live s).0 ≡ some true
          → lookup openai_mode_session_key s ≡ some dependency_mode_live)
      × ((is_stripe_live s).0 ≡ some true → (is_stripe_forced_mock s).0 ≡ some false)
      × ((is_openai_live s).0 ≡ some true → (is_openai_forced_mock s).0 ≡ some false)
unfolding is_stripe_live is_openai_live is_stripe_forced_mock is_openai_forced_mock
is_live_chosen s = (
  λ h. (read_live _ (lookup stripe_mode_session_key s) (get_stripe_mode-chosen s) h).0,
  λ h. (read_live _ (lookup openai_mode_session_key s) (get_openai_mode-chosen s) h).0,
  λ h. (read_live _ (lookup stripe_mode_session_key s) (get_stripe_mode-chosen s) h).1,
  λ h. (read_live _ (lookup openai_mode_session_key s) (get_openai_mode-chosen s) h).1,
)
