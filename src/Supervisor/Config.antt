-- ===== src/Supervisor/Config.antt =====
-- `validate_config`: which configurations a cycle accepts.
use desktop_pc24x7_runtime.Prelude.{
  ◌≡◌, ◌≢◌, ◌↔◌, refl, sym, ap, subst, Bool, true, false, not, ◌||◌, List, [], ◌∷◌, String, arith,
  ◌==◌, eq_iff, any, All, contains,
}
use desktop_pc24x7_runtime.Json.{
  Json, Items, null, bool, num, text, arr, obj, get, has_key, is_dict, is_text, elements,
}
use desktop_pc24x7_runtime.Result.{
  Result, ok, raised, raise, raise_if, supervisor_error, type_error, ok-injective, ◌>>=◌, ◌>>◌,
}

abbrev pub expected_host : String
expected_host = "DESKTOP-PDQK954"

abbrev pub allowed_kinds : List String
allowed_kinds = "runner" ∷ "http" ∷ "docker" ∷ []

abbrev pub forbidden_keys : List String
forbidden_keys = "command" ∷ "shell" ∷ "executable" ∷ []

-- The text of a name, "" for a value that is no text; the code refuses both.
abbrev pub text_of : Json → String
text_of (text s) = s
text_of _ = ""

abbrev pub target_name : Json → String
target_name target = text_of (get "name" target)

-- `kind not in ALLOWED_KINDS`: the lookup in a set raises on a value that has no hash.
unfoldable pub check_kind : Json → Result (Unit {0})
check_kind (arr _) = raise type_error "unhashable type: 'list'"
check_kind (obj _) = raise type_error "unhashable type: 'dict'"
check_kind (text kind) =
    raise_if (not (contains allowed_kinds kind)) supervisor_error "tipo de target nao autorizado"
check_kind _ = raise supervisor_error "tipo de target nao autorizado"

-- One turn of the loop, with the names seen before it.
unfoldable pub check_target : List String → Json → Result (Unit {0})
unfolding check_kind
check_target names target = do
  raise_if (not (is_dict target)) supervisor_error "target invalido"
  raise_if (target_name target == "" || contains names (target_name target)) supervisor_error
      "nome de target ausente ou duplicado"
  check_kind (get "kind" target)
  raise_if (any (λ key. has_key key target) forbidden_keys) supervisor_error
      "comandos arbitrarios sao proibidos"

unfoldable pub check_targets : List String → List Json → Result (Unit {0})
check_targets names [] = ok tt
check_targets names (target ∷ rest) = do
  check_target names target
  check_targets (target_name target ∷ names) rest

-- `not isinstance(targets, list) or not targets`
unfoldable pub target_list : Json → Result (List Json)
target_list (arr (Items.cons x xs)) = ok (x ∷ elements xs)
target_list _ = raise supervisor_error "targets deve ser uma lista nao vazia"

unfoldable pub validate_config : Json → Result (Unit {0})
unfolding check_targets check_target target_list
validate_config config = do
  raise_if (not (is_text (get "host" config) expected_host)) supervisor_error
      "host configurado nao autorizado"
  targets ← target_list (get "targets" config)
  check_targets [] targets

-- What a target has to be, apart from the others.
abbrev pub IsTarget : Json → Type 0
IsTarget target =
    (is_dict target ≡ true)
    × (target_name target ≢ "")
    × (contains allowed_kinds (text_of (get "kind" target)) ≡ true)
    × (any (λ key. has_key key target) forbidden_keys ≡ false)

abbrev pub DistinctNames : List Json → Type 0
DistinctNames [] = Unit
DistinctNames (t ∷ ts) = All (λ u. (target_name t == target_name u) ≡ false) ts × DistinctNames ts

abbrev pub AreTargets : List Json → Type 0
AreTargets ts = All IsTarget ts × DistinctNames ts

check_kind_iff :
    (kind : Json) → (check_kind kind ≡ ok tt) ↔ (contains allowed_kinds (text_of kind) ≡ true)
unfolding check_kind
check_kind_iff null = (λ h. cc, λ h. cc)
check_kind_iff (text s) = ground arith
check_kind_iff _ = (λ h. cc, λ h. cc)

check_target_iff :
    (names : List String) (t : Json)
    → (check_target names t ≡ ok tt) ↔ (IsTarget t × (contains names (target_name t) ≡ false))
unfolding check_target
check_target_iff names t = ground (arith, eq_iff (target_name t) "", check_kind_iff (get "kind" t))

-- The names seen so far are fresh for the targets still to come.
abbrev Fresh : List String → List Json → Type 0
Fresh names ts = All (λ t. contains names (target_name t) ≡ false) ts

Fresh-cons :
    (name : String) (names : List String) (ts : List Json)
    → Fresh (name ∷ names) ts ↔ (All (λ u. (name == target_name u) ≡ false) ts × Fresh names ts)
Fresh-cons name names [] = ground arith
Fresh-cons name names (t ∷ ts) = ground (arith, Fresh-cons name names ts)

check_targets_iff :
    (names : List String) (ts : List Json)
    → (check_targets names ts ≡ ok tt) ↔ (AreTargets ts × Fresh names ts)
unfolding check_targets
check_targets_iff names [] = (λ _. ((tt, tt), tt), λ _. refl)
check_targets_iff names (t ∷ ts) = ground (
  arith,
  check_target_iff names t,
  check_targets_iff (target_name t ∷ names) ts,
  Fresh-cons (target_name t) names ts,
)

Fresh-nil : (ts : List Json) → Fresh [] ts
Fresh-nil [] = tt
Fresh-nil (t ∷ ts) = (refl, Fresh-nil ts)

accepted_iff :
    (same_host : Bool) (r : Result (List Json))
    → ((do
      raise_if (not same_host) supervisor_error "host configurado nao autorizado"
      targets ← r
      check_targets [] targets)
        ≡ ok tt)
      ↔ ((same_host ≡ true) × (ts : List Json) × (r ≡ ok ts) × AreTargets ts)
accepted_iff false r = (λ h. cc, λ h. cc (h.0))
accepted_iff true (raised e) = (λ h. cc, λ h. cc (h.2))
accepted_iff true (ok ts) = (
  λ h. (refl, ts, refl, ((check_targets_iff [] ts).0 h).0),
  λ h. (check_targets_iff [] ts).1 (subst AreTargets (sym (ok-injective h.2)) h.3, Fresh-nil ts),
)

abbrev pub IsConfig : Json → Type 0
IsConfig config =
    (is_text (get "host" config) expected_host ≡ true)
    × (first : Json) × (rest : Items) × (get "targets" config ≡ arr (Items.cons first rest))
    × AreTargets (first ∷ elements rest)

abbrev items_of : Json → List Json
items_of (arr items) = elements items
items_of _ = []

-- `target_list` gives the elements of a list that has a first one, and nothing else.
listed_iff :
    (targets : Json) (P : List Json → Type 0)
    → ((ts : List Json) × (target_list targets ≡ ok ts) × P ts) ↔ (
        (first : Json) × (rest : Items) × (targets ≡ arr (Items.cons first rest))
        × P (first ∷ elements rest))
unfolding target_list
listed_iff (arr (Items.cons x xs)) P = (
  λ (ts, e, p). (x, xs, refl, subst P (sym (ok-injective e)) p),
  λ (y, ys, e, p). (x ∷ elements xs, refl, subst P (sym (ap items_of e)) p),
)
listed_iff (arr Items.nil) P = (λ h. cc (h.1), λ h. cc (h.2))
listed_iff null P = (λ h. cc (h.1), λ h. cc (h.2))
listed_iff (bool b) P = (λ h. cc (h.1), λ h. cc (h.2))
listed_iff (num n) P = (λ h. cc (h.1), λ h. cc (h.2))
listed_iff (text s) P = (λ h. cc (h.1), λ h. cc (h.2))
listed_iff (obj fields) P = (λ h. cc (h.1), λ h. cc (h.2))

-- `validate_config` accepts a configuration exactly if it names the governed host and its "targets"
-- is a list with a first element, whose elements are dicts, each with a non-empty name that no other
-- has, an allowed kind and none of the keys "command", "shell" and "executable".
pub validate_config_iff : (config : Json) → (validate_config config ≡ ok tt) ↔ IsConfig config
unfolding validate_config
validate_config_iff config =
    let (accepts, accepted) =
      accepted_iff (is_text (get "host" config) expected_host)
        (target_list (get "targets" config)) in
    let (lists, listed) = listed_iff (get "targets" config) AreTargets in
    (
      λ h.
          let (host, ts, e, are) = accepts h in
          let (first, rest, f, all) = lists (ts, e, are) in (host, first, rest, f, all),
      λ (host, first, rest, f, all).
          let (ts, e, are) = listed (first, rest, f, all) in accepted (host, ts, e, are),
    )

-- An accepted configuration lists targets, and they are what they have to be.
pub validate_config-AreTargets :
    (config : Json)
    → validate_config config ≡ ok tt
    → (ts : List Json) × (target_list (get "targets" config) ≡ ok ts) × AreTargets ts
unfolding validate_config
validate_config-AreTargets config h =
    let (_, ts, listed, valid) =
      (accepted_iff (is_text (get "host" config) expected_host)
          (target_list (get "targets" config))).0
        h in
    (ts, listed, valid)
