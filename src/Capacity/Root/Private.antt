-- ===== src/Capacity/Root/Private.antt =====
-- What the checks of the audit root and of the directories above it show.
use desktop_pc24x7_runtime.Prelude.{
  ◌+◌, ◌*◌, ◌≤◌, ◌≡◌, refl, ◌⊎◌, inl, inr, Bool, true, false, ◌||◌, Option, none, some, List, [],
  ◌∷◌, ◌++◌, length, any, All, String, arith,
}
use Prim.Native.Nat.{◌^◌}
use desktop_pc24x7_runtime.Result.{Result, ok, Result-cases}
use desktop_pc24x7_runtime.Capacity.File.{ordinary}
use desktop_pc24x7_runtime.Capacity.Root.{
  Identity, Ace, Security, Directory, Machine, grants_mutation, is_inherit_only, ours, trusted,
  check_ace, is_ours, check_aces, verify_security, pin, each, windows_private_root,
}

module _ (identity : Identity) where
  -- An entry that takes nothing away from the process: a denial, or a grant to a trusted identity.
  pub record IsPrivateAce (ace : Ace) : Type 0 where
    pub supported : (ace.kind ≡ 0) ⊎ (ace.kind ≡ 1)
    pub to_trusted : ace.kind ≡ 0 → trusted identity ace.sid ≡ true

  -- An entry that lets no stranger change the directory.
  pub record IsSafeAce (ace : Ace) : Type 0 where
    pub supported : (ace.kind ≡ 0) ⊎ (ace.kind ≡ 1)
    pub harmless :
        ace.kind ≡ 0
        → trusted identity ace.sid ≡ false
        → is_inherit_only ace.flags ≡ false
        → grants_mutation ace.mask ≡ false

  check_ace-IsPrivateAce : (ace : Ace) → check_ace identity true ace ≡ ok tt → IsPrivateAce ace
  unfolding check_ace
  check_ace-IsPrivateAce ace h = record { supported = ground arith; to_trusted = λ k. ground arith }

  check_ace-IsSafeAce : (ace : Ace) → check_ace identity false ace ≡ ok tt → IsSafeAce ace
  unfolding check_ace
  check_ace-IsSafeAce ace h = record { supported = ground arith; harmless = λ k t i. ground arith }

  check_aces-All :
      (strict : Bool) (P : Ace → Type 0)
      → ((ace : Ace) → check_ace identity strict ace ≡ ok tt → P ace)
      → (aces : List Ace) (allowed result : Bool)
      → check_aces identity strict aces allowed ≡ ok result
      → All P aces × (result ≡ (allowed || any (is_ours identity) aces))
  unfolding check_aces
  check_aces-All strict P sound [] allowed result h = (tt, ground arith)
  check_aces-All strict P sound (ace ∷ aces) allowed result h =
      elim (Result-cases (check_ace identity strict ace)) [
        | inr (e, c) ↦ ground arith
        | inl (done, c) ↦
            let (rest, same) =
              check_aces-All strict P sound aces (allowed || is_ours identity ace) result
                (ground arith) in
            ((sound ace c, rest), ground arith)
      ]

  -- A directory of the process alone: nobody else is let in.
  pub record IsPrivate (security : Security) : Type 0 where
    pub owned : (owner : String) × (security.owner ≡ some owner) × (ours identity owner ≡ true)
    pub aces : List Ace
    pub listed : security.dacl ≡ some aces
    pub private : All IsPrivateAce aces
    pub current : any (is_ours identity) aces ≡ true
    pub few : length aces ≤ 128

  -- A directory that no stranger can change.
  pub record IsSafe (security : Security) : Type 0 where
    pub owned : (owner : String) × (security.owner ≡ some owner) × (trusted identity owner ≡ true)
    pub aces : List Ace
    pub listed : security.dacl ≡ some aces
    pub safe : All IsSafeAce aces

  verify_security-IsPrivate :
      (security : Security) → verify_security identity true security ≡ ok tt → IsPrivate security
  unfolding verify_security
  verify_security-IsPrivate security h = go security.owner security.dacl refl refl
    where
      go :
          (owner : Option String) (dacl : Option (List Ace))
          → security.owner ≡ owner
          → security.dacl ≡ dacl
          → IsPrivate security
      go none dacl o d = ground arith
      go (some owner) none o d = ground arith
      go (some owner) (some aces) o d = elim (Result-cases (check_aces identity true aces false)) [
        | inr (e, c) ↦ ground arith
        | inl (allowed, c) ↦
            let (private, same) =
              check_aces-All true IsPrivateAce check_ace-IsPrivateAce aces false allowed c in
            record {
              owned = (owner, o, ground arith);
              aces = aces;
              listed = d;
              private = private;
              current = ground arith;
              few = ground arith;
            }
      ]

  verify_security-IsSafe :
      (security : Security) → verify_security identity false security ≡ ok tt → IsSafe security
  unfolding verify_security
  verify_security-IsSafe security h = go security.owner security.dacl refl refl
    where
      go :
          (owner : Option String) (dacl : Option (List Ace))
          → security.owner ≡ owner
          → security.dacl ≡ dacl
          → IsSafe security
      go none dacl o d = ground arith
      go (some owner) none o d = ground arith
      go (some owner) (some aces) o d = elim (Result-cases (check_aces identity false aces false)) [
        | inr (e, c) ↦ ground arith
        | inl (allowed, c) ↦
            let (safe, same) =
              check_aces-All false IsSafeAce check_ace-IsSafeAce aces false allowed c in
            record { owned = (owner, o, ground arith); aces = aces; listed = d; safe = safe }
      ]

-- The handle is of the directory that lstat saw, which is no link.
pub record IsPinned (directory : Directory) : Type 0 where
  pub opened : directory.is_opened ≡ true
  pub no_link : (directory.observed).is_link ≡ false
  pub no_reparse : directory.is_reparse ≡ false
  pub same : (directory.observed).inode ≡ directory.index_high * 2 ^ 32 + directory.index_low

pin-IsPinned : (directory : Directory) → pin directory ≡ ok tt → IsPinned directory
unfolding pin ordinary
pin-IsPinned directory h = record {
  opened = ground arith;
  no_link = ground arith;
  no_reparse = ground arith;
  same = ground arith;
}

each-All :
    (check : Directory → Result (Unit {0})) (P : Directory → Type 0)
    → ((directory : Directory) → check directory ≡ ok tt → P directory)
    → (directories : List Directory) → each check directories ≡ ok tt
    → All P directories
unfolding each
each-All check P sound [] h = tt
each-All check P sound (directory ∷ directories) h = elim (Result-cases (check directory)) [
  | inr (e, c) ↦ ground arith
  | inl (done, c) ↦ (sound directory c, each-All check P sound directories (ground arith))
]

-- The audit root that is let in: every directory on its path is held by a handle of its own, none of
-- those above it can be changed by a stranger, and the root is the process's alone.
pub record IsGuarded (identity : Identity) (machine : Machine) : Type 0 where
  pub pinned : All IsPinned (machine.ancestors ++ (machine.root ∷ []))
  pub safe : All (λ directory. IsSafe identity directory.security) machine.ancestors
  pub private : IsPrivate identity (machine.root).security

-- The check of the audit root ends well only if each directory from the volume down to it is no
-- link and is held by a handle of its own, the ones above it belong to trusted identities and grant
-- no stranger a change, and the root itself belongs to the process's identity, which its
-- access list lets in, and lets in none but trusted identities.
pub windows_private_root-IsGuarded :
    (identity : Identity) (machine : Machine)
    → windows_private_root identity machine ≡ ok tt
    → IsGuarded identity machine
unfolding windows_private_root
windows_private_root-IsGuarded identity machine h = record {
  pinned =
      each-All pin IsPinned pin-IsPinned (machine.ancestors ++ (machine.root ∷ [])) (ground arith);
  safe =
      each-All (λ directory. verify_security identity false directory.security)
        (λ directory. IsSafe identity directory.security)
        (λ directory. verify_security-IsSafe identity directory.security) machine.ancestors
        (ground arith);
  private = verify_security-IsPrivate identity (machine.root).security (ground arith);
}
