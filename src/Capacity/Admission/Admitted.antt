-- ===== src/Capacity/Admission/Admitted.antt =====
-- What an admission shows: whose request it is, how old, and at which heads.
use desktop_pc24x7_runtime.Prelude.{ℕ, ◌≡◌, ap, sym, ◌∙◌, true, Option, String, arith}
use desktop_pc24x7_runtime.Json.{Json, text, get}
use desktop_pc24x7_runtime.Result.{Result, ok, ok-injective}
use desktop_pc24x7_runtime.Effect.{resume-eq-ok, lift}
use desktop_pc24x7_runtime.Text.{Python}
use desktop_pc24x7_runtime.Capacity.Issue.{require, string_of, parse}
use desktop_pc24x7_runtime.Capacity.Event.{Environment, env_is, check_event}
use desktop_pc24x7_runtime.Capacity.Head.{head_of, check_heads}
use desktop_pc24x7_runtime.Capacity.Admission.{
  Site, is_unchanged, validate_now, main_path, rules_path, admission, assess, conclude, revalidate,
  after_rules, after_main, read_main, after_fresh, after_fetch, read_fresh, after_request,
  after_event, issue_path,
}
use desktop_pc24x7_runtime.Capacity.Admission.Valid.{
  IsRequest, IsWellFormed, validate_issue-IsRequest, require-true, check_heads-heads,
  parse-IsWellFormed, parse-same,
}

module _ {W : Type 0} (python : Python) (loads : String → Option Json) (site : Site W) where
  -- An admission: the event's issue, the issue read again, the request in them, and the last clock.
  pub record IsAdmitted (event : Json) (env : Environment) (admitted : Json) (after : W)
      : Type 0 where
    pub issue : Json
    pub request : Json
    pub fresh : Json
    pub now : ℕ
    pub event_guards : check_event event env ≡ ok issue
    pub result : admitted ≡ admission python loads site env issue request
    pub well_formed : IsWellFormed request
    pub pinned : env_is env "GITHUB_SHA" (string_of (get "expected_head_sha" request)) ≡ true
    pub last_clock : (before : W) × (site.now before ≡ (now, after))
    pub still_valid : IsRequest python loads fresh now request
    pub same_issue : is_unchanged fresh issue ≡ true
    pub main_head :
        (main : Json) × (before : W) × (later : W) × (site.fetch main_path before
          ≡ (ok main, later))
        × (head_of main ≡ ok (text (string_of (get "expected_head_sha" request))))
    pub rules_head :
        (rules : Json) × (before : W) × (later : W) × (site.fetch rules_path before
          ≡ (ok rules, later))
        × (head_of rules ≡ ok (text (string_of (get "expected_rules_sha" request))))

  validate_now-eq-ok :
      (issue request : Json) (w later : W)
      → validate_now python loads site issue w ≡ (ok request, later)
      → IsRequest python loads issue (site.now w).0 request × ((site.now w).1 ≡ later)
  unfolding validate_now
  validate_now-eq-ok issue request w later h = (
    validate_issue-IsRequest python loads issue (site.now w).0 request
        (ap (λ (p : Result Json × W). p.0) h),
    ap (λ (p : Result Json × W). p.1) h,
  )

  -- The last look: the clock, the issue that it finds valid, and what is returned.
  record IsConfirmed (env : Environment) (issue request fresh admitted : Json) (after : W)
      : Type 0 where
    now : ℕ
    latest : Json
    last_clock : (before : W) × (site.now before ≡ (now, after))
    still_valid : IsRequest python loads fresh now latest
    result : admitted ≡ admission python loads site env issue request

  record IsAtHeads (request : Json) : Type 0 where
    main_head :
        (main : Json) × (before : W) × (later : W) × (site.fetch main_path before
          ≡ (ok main, later))
        × (head_of main ≡ ok (text (string_of (get "expected_head_sha" request))))
    rules_head :
        (rules : Json) × (before : W) × (later : W) × (site.fetch rules_path before
          ≡ (ok rules, later))
        × (head_of rules ≡ ok (text (string_of (get "expected_rules_sha" request))))

  value-eq : {A : Type 0} (r : Result A) (a : A) (w later : W) → lift r w ≡ (ok a, later) → r ≡ ok a
  value-eq {A} r a w later h = ap (λ (p : Result A × W). p.0) h

  module _ (env : Environment) (issue request fresh admitted : Json) (after : W) where
    revalidate-IsConfirmed :
        (done : Unit {0}) (w : W)
        → revalidate python loads site env issue request fresh done w ≡ (ok admitted, after)
        → IsConfirmed env issue request fresh admitted after
    revalidate-IsConfirmed done w h0 =
        let (latest, w1, e1, h1) =
          resume-eq-ok (validate_now python loads site fresh w)
            (conclude python loads site env issue request) h0 in
        let (valid, clock) = validate_now-eq-ok fresh latest w w1 e1 in
        record {
          now = (site.now w).0;
          latest = latest;
          last_clock = (
            w,
            ap (λ later. ((site.now w).0, later)) (clock ∙ ap (λ (p : Result Json × W). p.1) h1),
          );
          still_valid = valid;
          result = sym (ok-injective (ap (λ (p : Result Json × W). p.0) h1));
        }

    read_main-IsAtHeads :
        (done : Unit {0}) (w : W)
        → read_main python loads site env issue request fresh done w ≡ (ok admitted, after)
        → IsAtHeads request × IsConfirmed env issue request fresh admitted after
    read_main-IsAtHeads done w h0 =
        let (main, w1, e1, h1) =
          resume-eq-ok (site.fetch main_path w)
            (after_main python loads site env issue request fresh) h0 in
        let (rules, w2, e2, h2) =
          resume-eq-ok (site.fetch rules_path w1)
            (after_rules python loads site env issue request fresh main) h1 in
        let (checked, w3, e3, h3) =
          resume-eq-ok (lift (check_heads request main rules) w2)
            (revalidate python loads site env issue request fresh) h2 in
        let (at_main, at_rules) =
          check_heads-heads request main rules
            (value-eq (check_heads request main rules) checked w2 w3 e3) in
        (
          record {
            main_head = (main, w, w1, e1, at_main);
            rules_head = (rules, w1, w2, e2, at_rules);
          },
          revalidate-IsConfirmed checked w3 h3,
        )

    after_fetch-same :
        (w : W)
        → after_fetch python loads site env issue request fresh w ≡ (ok admitted, after)
        → (is_unchanged fresh issue ≡ true)
          × IsAtHeads request
          × IsConfirmed env issue request fresh admitted after
    after_fetch-same w h0 =
        let (early, w1, e1, h1) =
          resume-eq-ok (validate_now python loads site fresh w)
            (after_fresh python loads site env issue request fresh) h0 in
        let (same, w2, e2, h2) =
          resume-eq-ok (lift (require (is_unchanged fresh issue) "ISSUE_CHANGED") w1)
            (read_main python loads site env issue request fresh) h1 in
        let (heads, confirmed) = read_main-IsAtHeads same w2 h2 in
        (
          require-true (is_unchanged fresh issue) "ISSUE_CHANGED"
              (value-eq (require (is_unchanged fresh issue) "ISSUE_CHANGED") same w1 w2 e2),
          heads,
          confirmed,
        )

  -- The unchanged body is the same request.
  IsRequest-same :
      (issue fresh request latest : Json) (now : ℕ)
      → is_unchanged fresh issue ≡ true
      → parse loads (get "body" issue) ≡ ok request
      → IsRequest python loads fresh now latest
      → IsRequest python loads fresh now request
  IsRequest-same issue fresh request latest now same body valid = record {
    is_open = valid.is_open;
    by_owner = valid.by_owner;
    unedited = valid.unedited;
    fresh = valid.fresh;
    body =
        parse-same loads (get "body" fresh) (get "body" issue) latest request (ground arith)
          valid.body body;
  }

  after_request-IsAdmitted :
      (event : Json) (env : Environment) (admitted issue request : Json) (w after : W)
      → check_event event env ≡ ok issue
      → parse loads (get "body" issue) ≡ ok request
      → after_request python loads site env issue request w ≡ (ok admitted, after)
      → IsAdmitted event env admitted after
  after_request-IsAdmitted event env admitted issue request w after guards body h0 =
      let pin =
        require (env_is env "GITHUB_SHA" (string_of (get "expected_head_sha" request)))
          "EVENT_SHA_INVALID" in
      let (done, w1, e1, h1) =
        resume-eq-ok (lift pin w) (read_fresh python loads site env issue request) h0 in
      let (fresh, w2, e2, h2) =
        resume-eq-ok (site.fetch (issue_path python loads site issue) w1)
          (after_fetch python loads site env issue request) h1 in
      let (same, heads, confirmed) =
        after_fetch-same env issue request fresh admitted after w2 h2 in
      record {
        issue = issue;
        request = request;
        fresh = fresh;
        now = confirmed.now;
        event_guards = guards;
        result = confirmed.result;
        well_formed = parse-IsWellFormed loads (get "body" issue) request body;
        pinned =
            require-true (env_is env "GITHUB_SHA" (string_of (get "expected_head_sha" request)))
              "EVENT_SHA_INVALID" (value-eq pin done w w1 e1);
        last_clock = confirmed.last_clock;
        still_valid =
            IsRequest-same issue fresh request confirmed.latest confirmed.now same body
              confirmed.still_valid;
        same_issue = same;
        main_head = heads.main_head;
        rules_head = heads.rules_head;
      }

  -- A request is admitted only if it is an open, unedited issue of the owner, at most 300 seconds
  -- old at the last clock reading, well formed and unchanged since the event, in the owner's own
  -- workflow run of the very commit that it names, and both branches are at the heads that it names.
  pub assess-IsAdmitted :
      (event : Json) (env : Environment) (admitted : Json) (w after : W)
      → assess python loads site event env w ≡ (ok admitted, after)
      → IsAdmitted event env admitted after
  unfolding assess
  assess-IsAdmitted event env admitted w after h0 =
      let (issue, w1, e1, h1) =
        resume-eq-ok (lift (check_event event env) w) (after_event python loads site env) h0 in
      let (request, w2, e2, h2) =
        resume-eq-ok (validate_now python loads site issue w1)
          (after_request python loads site env issue) h1 in
      after_request-IsAdmitted event env admitted issue request w2 after
        (value-eq (check_event event env) issue w w1 e1)
        (validate_now-eq-ok issue request w1 w2 e2).0.body h2
