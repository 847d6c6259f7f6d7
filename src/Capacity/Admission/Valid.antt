-- ===== src/Capacity/Admission/Valid.antt =====
-- What a validated issue, a parsed request and checked heads are.
use desktop_pc24x7_runtime.Prelude.{
  ℕ, ◌+◌, ◌≤◌, ◌≡◌, refl, ap, sym, ◌∙◌, subst, Bool, true, false, Option, String, eq_iff, arith,
  inl, inr,
}
use desktop_pc24x7_runtime.Json.{Json, null, bool, num, text, arr, obj, get, is_text}
use desktop_pc24x7_runtime.Result.{ok, Result-cases}
use desktop_pc24x7_runtime.Text.{Python}
use desktop_pc24x7_runtime.Capacity.Pattern.{is_sha, is_request_id}
use desktop_pc24x7_runtime.Capacity.Keys.{text_fits}
use desktop_pc24x7_runtime.Capacity.Equal.{equals}
use desktop_pc24x7_runtime.Capacity.Issue.{
  require, max_age, validate_issue, string_of, parse, check_request, unique_or_raise, timestamp,
  identity,
}
use desktop_pc24x7_runtime.Capacity.Head.{head_of, check_heads}

-- An issue that is a valid request at a moment.
pub record IsRequest (python : Python) (loads : String → Option Json) (issue : Json) (now : ℕ)
    (request : Json) : Type 0 where
  pub is_open : is_text (get "state" issue) "open" ≡ true
  pub by_owner : identity (get "user" issue) ≡ true
  pub unedited : equals (get "updated_at" issue) (get "created_at" issue) ≡ true
  pub fresh :
      (created : ℕ) × (timestamp python (get "created_at" issue) ≡ ok created)
      × (created ≤ now)
      × (now ≤ created + max_age)
  pub body : parse loads (get "body" issue) ≡ ok request

-- The form of a request.
pub record IsWellFormed (request : Json) : Type 0 where
  pub request_id : text_fits is_request_id (get "request_id" request) ≡ true
  pub head : text_fits is_sha (get "expected_head_sha" request) ≡ true
  pub rules : text_fits is_sha (get "expected_rules_sha" request) ≡ true

pub check_request-IsWellFormed :
    (found request : Json)
    → check_request found ≡ ok request
    → IsWellFormed request × (found ≡ request)
unfolding check_request
check_request-IsWellFormed found request h =
    (record { request_id = ground arith; head = ground arith; rules = ground arith }, ground arith)

module _ (python : Python) (loads : String → Option Json) where
  pub validate_issue-IsRequest :
      (issue : Json) (now : ℕ) (request : Json)
      → validate_issue python loads issue now ≡ ok request
      → IsRequest python loads issue now request
  unfolding validate_issue
  validate_issue-IsRequest issue now request h =
      elim (Result-cases (timestamp python (get "created_at" issue))) [
        | inr (e, t) ↦ ground arith
        | inl (created, t) ↦ record {
          is_open = ground arith;
          by_owner = ground arith;
          unedited = ground arith;
          fresh = (created, t, ground arith, ground arith);
          body = ground arith;
        }
      ]

pub require-true : (test : Bool) (reason : String) → require test reason ≡ ok tt → test ≡ true
require-true true reason h = refl
require-true false reason h = cc

pub is_text-text : (value : Json) (s : String) → is_text value s ≡ true → value ≡ text s
is_text-text (text t) s h = ap text ((eq_iff t s).0 h)
is_text-text null s h = cc
is_text-text (bool b) s h = cc
is_text-text (num n) s h = cc
is_text-text (arr xs) s h = cc
is_text-text (obj fs) s h = cc

module _ (request main rules : Json) where
  -- Both heads are texts, and the ones that the request names.
  pub check_heads-heads :
      check_heads request main rules ≡ ok tt
      → (head_of main ≡ ok (text (string_of (get "expected_head_sha" request))))
        × (head_of rules ≡ ok (text (string_of (get "expected_rules_sha" request))))
  unfolding check_heads
  check_heads-heads h = elim (Result-cases (head_of main)) [
    | inr (e, m) ↦ ground arith
    | inl (head, m) ↦ elim (Result-cases (head_of rules)) [
      | inr (e, r) ↦ ground arith
      | inl (rules_head, r) ↦
          let main_text =
            is_text-text head (string_of (get "expected_head_sha" request)) (ground arith) in
          let rules_text =
            is_text-text rules_head (string_of (get "expected_rules_sha" request)) (ground arith) in
          (m ∙ ap ok main_text, r ∙ ap ok rules_text)
    ]
  ]

module _ (loads : String → Option Json) where
  pub parse-text :
      (body request : Json) → parse loads body ≡ ok request → (s : String) × (body ≡ text s)
  unfolding parse
  parse-text (text s) request h = (s, refl)
  parse-text null request h = ground arith
  parse-text (bool b) request h = ground arith
  parse-text (num n) request h = ground arith
  parse-text (arr xs) request h = ground arith
  parse-text (obj fs) request h = ground arith

  pub parse-IsWellFormed :
      (body request : Json) → parse loads body ≡ ok request → IsWellFormed request
  unfolding parse
  parse-IsWellFormed body request h =
      elim (Result-cases (unique_or_raise (loads (string_of body)))) [
        | inr (e, u) ↦ ground arith
        | inl (found, u) ↦
            let (formed, same) = check_request-IsWellFormed found request (ground arith) in formed
      ]

  equal_texts : (a b : Json) (s t : String) → a ≡ text s → b ≡ text t → equals a b ≡ true → s ≡ t
  unfolding equals
  equal_texts a b s t p q h =
      (eq_iff s t).0 (subst (λ z. equals (text s) z ≡ true) q (subst (λ z. equals z b ≡ true) p h))

  -- Two bodies that compare equal are one request.
  pub parse-same :
      (a b request other : Json)
      → equals a b ≡ true
      → parse loads a ≡ ok request
      → parse loads b ≡ ok other
      → parse loads a ≡ ok other
  parse-same a b request other h p q =
      let (s, is_s) = parse-text a request p in
      let (t, is_t) = parse-text b other q in
      ap (parse loads) (is_s ∙ ap text (equal_texts a b s t is_s is_t h) ∙ sym is_t) ∙ q
