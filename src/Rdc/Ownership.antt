-- ===== src/Rdc/Ownership.antt =====
-- `recover` without its confirmation, and when the wait for the headless owner ends.
use desktop_pc24x7_runtime.Prelude.{
  ℕ, zero, suc, ◌+◌, ◌*◌, ◌≤◌, ◌≡◌, refl, ◌∙◌, Bool, true, false, not, ◌&&◌, String, ◌==◌, ltb,
  arith, ◌⊎◌, inl, inr, Bool-cases,
}
use desktop_pc24x7_runtime.Result.{succeeded, ok}
use desktop_pc24x7_runtime.Text.{second}
use desktop_pc24x7_runtime.Rdc.Claim.{Claim}
use desktop_pc24x7_runtime.Rdc.Recover.{
  Machine, recover, validate_host, wait_for_headless_ready, poll_claim, read_headless_claim,
  confirm_text, expected_host,
}

module _ {W : Type 0} (machine : Machine W) where
  abbrev pub admits : String → Bool
  admits confirm =
      confirm == confirm_text
      && (machine.is_windows
          && (machine.python).casefold machine.hostname == (machine.python).casefold expected_host)

  -- Without the confirmation, or on another host, nothing at all is done.
  pub recover-refuses :
      (confirm : String) (w : W)
      → admits confirm ≡ false
      → (succeeded (recover machine confirm w).0 ≡ false) × ((recover machine confirm w).1 ≡ w)
  unfolding recover validate_host
  recover-refuses confirm w h = ground arith

  abbrev goes_on : ℕ → Claim → W → Bool
  goes_on deadline last w = not last.fresh && ltb (machine.monotonic w) deadline

  poll_claim-stop :
      (fuel deadline : ℕ) (last : Claim) (w : W)
      → goes_on deadline last w ≡ false
      → poll_claim machine (suc fuel) deadline last w ≡ (ok last, w)
  unfolding poll_claim
  poll_claim-stop fuel deadline last w h = rw (h, poll_claim) refl

  poll_claim-next :
      (fuel deadline : ℕ) (last last' : Claim) (w : W)
      → goes_on deadline last w ≡ true
      → read_headless_claim machine (machine.sleep 500000 w) ≡ (ok last', machine.sleep 500000 w)
      → poll_claim machine (suc fuel) deadline last w
        ≡ poll_claim machine fuel deadline last' (machine.sleep 500000 w)
  unfolding poll_claim
  poll_claim-next fuel deadline last last' w h e = rw (h, poll_claim, e) refl

  poll_claim-ends :
      ((w : W) → (claim : Claim) × (read_headless_claim machine w ≡ (ok claim, w)))
      → ((d : ℕ) (w : W) → machine.monotonic w + d ≤ machine.monotonic (machine.sleep d w))
      → (fuel deadline : ℕ) (last : Claim) (w : W) → deadline ≤ machine.monotonic w + 500000 * fuel
      → (claim : Claim) × (w' : W) × (poll_claim machine (suc fuel) deadline last w
          ≡ (ok claim, w'))
        × ((claim.fresh ≡ true) ⊎ (deadline ≤ machine.monotonic w'))
  poll_claim-ends readable ticks zero deadline last w h =
      (last, w, poll_claim-stop zero deadline last w (ground arith), ground arith)
  poll_claim-ends readable ticks (suc fuel) deadline last w h =
      elim (Bool-cases (goes_on deadline last w)) [
        | inr stop ↦ (last, w, poll_claim-stop (suc fuel) deadline last w stop, ground arith)
        | inl next ↦
            let (last', e) = readable (machine.sleep 500000 w) in
            let (claim, w', f, g) =
              poll_claim-ends readable ticks fuel deadline last' (machine.sleep 500000 w)
                (ground (arith, ticks 500000 w)) in
            (claim, w', poll_claim-next (suc fuel) deadline last last' w next e ∙ f, g)
      ]

  -- Let every read of the claim file be a claim, and let a sleep take as long as it says. Then the
  -- wait for the headless owner returns a claim, within its fuel: a fresh one, or when the twelve
  -- seconds are over.
  pub wait_for_headless_ready-ends :
      (readable : (w : W) → (claim : Claim) × (read_headless_claim machine w ≡ (ok claim, w)))
      (ticks : (d : ℕ) (w : W) → machine.monotonic w + d ≤ machine.monotonic (machine.sleep d w))
      (w : W)
      → (claim : Claim) × (w' : W) × (wait_for_headless_ready machine w ≡ (ok claim, w'))
        × ((claim.fresh ≡ true) ⊎ (machine.monotonic w + 12 * second ≤ machine.monotonic w'))
  unfolding wait_for_headless_ready
  wait_for_headless_ready-ends readable ticks w =
      let (first, e) = readable w in
      let (claim, w', f, g) =
        poll_claim-ends readable ticks 25 (machine.monotonic w + 12 * second) first w
          (omega arith) in
      (claim, w', rw e f, g)
