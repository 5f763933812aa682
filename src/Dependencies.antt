-- ===== src/Dependencies.antt =====
-- src/dependencies/dependency_state.py: the dependency modes that are chosen in a session. The session
-- state of Streamlit is a dictionary keyed by texts, here an association list, in insertion order.
pub mod Laws
use billing_recovery_executi.Common.{
  String, Bool, true, false, not, Option, none, some, List, [], ◌∷◌, ◌==◌, if◌then◌else◌,
}
use billing_recovery_executi.Rules.DependencyModes.{
  dependency_mode_forced_mock, dependency_mode_live,
}

abbrev pub Session : Type 0
Session = List (String × String)

abbrev pub openai_mode_session_key : String
openai_mode_session_key = "openai_dependency_mode"

abbrev pub stripe_mode_session_key : String
stripe_mode_session_key = "stripe_dependency_mode"

-- `st.session_state[key]`, where none is KeyError.
abbrev pub lookup : String → Session → Option String
lookup key [] = none
lookup key ((k, v) ∷ s) = let rest = lookup key s in if key == k then some v else rest

-- `key in st.session_state`
abbrev pub contains : String → Session → Bool
contains key s = elim (lookup key s) [ none ↦ false | some _ ↦ true ]

-- `st.session_state[key] = value`
abbrev pub assign : String → String → Session → Session
assign key value [] = (key, value) ∷ []
assign key value ((k, v) ∷ s) =
    let rest = assign key value s in if key == k then (k, value) ∷ s else (k, v) ∷ rest

-- `if key not in st.session_state: st.session_state[key] = DEPENDENCY_MODE_FORCED_MOCK`
unfoldable pub initialize_mode : String → Session → Session
initialize_mode key s = if not (contains key s) then assign key dependency_mode_forced_mock s else s

unfoldable pub initialize_dependency_modes : Session → Session
initialize_dependency_modes s =
    initialize_mode stripe_mode_session_key (initialize_mode openai_mode_session_key s)

-- A read initializes the session first, so it returns the session too.
unfoldable pub get_openai_mode : Session → Option String × Session
get_openai_mode s =
    let s' = initialize_dependency_modes s in (lookup openai_mode_session_key s', s')

unfoldable pub get_stripe_mode : Session → Option String × Session
get_stripe_mode s =
    let s' = initialize_dependency_modes s in (lookup stripe_mode_session_key s', s')

unfoldable pub set_openai_mode : String → Session → Session
set_openai_mode mode s = assign openai_mode_session_key mode s

unfoldable pub set_stripe_mode : String → Session → Session
set_stripe_mode mode s = assign stripe_mode_session_key mode s

-- `get_mode() == mode`, where none is the KeyError of the read.
abbrev pub equals : Option String → String → Option Bool
equals none mode = none
equals (some m) mode = some (m == mode)

unfoldable pub is_openai_forced_mock : Session → Option Bool × Session
is_openai_forced_mock s =
    let (mode, s') = get_openai_mode s in (equals mode dependency_mode_forced_mock, s')

unfoldable pub is_stripe_forced_mock : Session → Option Bool × Session
is_stripe_forced_mock s =
    let (mode, s') = get_stripe_mode s in (equals mode dependency_mode_forced_mock, s')

unfoldable pub is_openai_live : Session → Option Bool × Session
is_openai_live s = let (mode, s') = get_openai_mode s in (equals mode dependency_mode_live, s')

unfoldable pub is_stripe_live : Session → Option Bool × Session
is_stripe_live s = let (mode, s') = get_stripe_mode s in (equals mode dependency_mode_live, s')
