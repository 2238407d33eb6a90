-- ===== src/Repository/Claims.antt =====
-- An approval is spent at most once, whatever the order of the calls.
use course_fuzz.Prelude.{
  ℕ, ◌+◌, ◌≤◌, String, Bool, true, false, Option, none, some, is_some, List, [], ◌∷◌, count, lookup,
  lookup-insert, lookup-insert_self, ◌==◌, string_eq, nat_beq, nat_beq_iff, if◌then◌else◌, ◌≡◌,
  refl, sym, ap, ◌∙◌, ◌⊎◌, inl, inr, Bool-cases, Option-cases, arith,
}
use mathlib.Core.Path.{subst}
use course_fuzz.Prelude.Result.{Result, ok, raised}
use course_fuzz.Models.{RunView, RunStatus, Time}
use course_fuzz.Repository
use course_fuzz.Repository.{Store, Approval, has_id, in_status, grants}

-- A call of a method that writes.
pub data Call (A : Type 0) : Type 0 where
  create : RunView A → (key owner : String) → Time → Call A
  save : RunView A → Time → Call A
  claim : RunView A → (token payload : String) → Time → Call A
  approve : (run_id payload token : String) → Time → Call A
  consume : (run_id token payload : String) → Time → Call A
  append : (run_id event_type stage message payload : String) → Time → Call A
  artifact : (run_id path filename sha256 : String) → (content : Result String) → Time → Call A

abbrev returned_true : Result Bool → ℕ
returned_true (ok true) = 1
returned_true _ = 0

abbrev unspent : Option Approval → ℕ
unspent none = 0
unspent (some a) = if is_some a.consumed_at then 0 else 1

module _ {A : Type 0} where
  -- The store after a call.
  pub perform : Call A → Store A → Store A
  perform (Call.create run key owner now) s = (Repository.create run key owner now s).1
  perform (Call.save run now) s = (Repository.save run now s).1
  perform (Call.claim run token payload now) s =
      (Repository.claim_approved_apply run token payload now s).1
  perform (Call.approve run_id payload token now) s =
      (Repository.approve run_id payload token now s).1
  perform (Call.consume run_id token payload now) s =
      (Repository.consume_approval run_id token payload now s).1
  perform (Call.append run_id t st m p now) s = (Repository.append_event run_id t st m p now s).1
  perform (Call.artifact run_id path name sha content now) s =
      (Repository.save_artifact run_id path name sha content now s).1

  -- 1 if the call has spent an approval of the run.
  pub spends : String → Call A → Store A → ℕ
  spends k (Call.claim run token payload now) s =
      if run.id == k
      then returned_true (Repository.claim_approved_apply run token payload now s).0
      else 0
  spends k (Call.consume run_id token payload now) s =
      if run_id == k
      then returned_true (Repository.consume_approval run_id token payload now s).0
      else 0
  spends k _ s = 0

  -- 1 if the call asks for an approval of the run.
  pub asks : String → Call A → ℕ
  asks k (Call.approve run_id payload token now) = if run_id == k then 1 else 0
  asks k _ = 0

  -- 1 if the run has an approval that is not consumed.
  pub outstanding : String → Store A → ℕ
  unfolding unspent
  outstanding k s = unspent (lookup k s.approvals)

  consume-spends :
      (j k : String) (o : Option Approval) (now : Time) (s : Store A)
      → o ≡ lookup j s.approvals
      → (if j == k then returned_true (Repository.consume o j now s).0 else 0)
          + outstanding k (Repository.consume o j now s).1
        ≤ 0 + outstanding k s
  unfolding outstanding Repository.consume
  consume-spends j k none now s e = ground arith
  consume-spends j k (some a) now s e = ground (
    arith,
    lookup-insert j k (record a { consumed_at = some now }) s.approvals,
    string_eq.beq_iff j k,
    e,
  )

  -- The store of a claim whose row was found.
  abbrev claimed_rows : RunView A → Time → Store A → Store A
  claimed_rows run now s = record s {
    runs = Repository.update_rows (in_status run.id RunStatus.approved) run now s.runs;
  }

  -- A claim either returns `False` and writes nothing, or writes the run and consumes the approval.
  claim-cases :
      (run : RunView A) (token payload : String) (now : Time) (s : Store A)
      → (Repository.claim_approved_apply run token payload now s ≡ (ok false, s))
        ⊎ ((grants (lookup run.id s.approvals) token payload ≡ true)
            × (count (in_status run.id RunStatus.approved) s.runs ≡ 1)
            × (Repository.claim_approved_apply run token payload now s
                ≡ Repository.consume
                    (lookup run.id s.approvals)
                    run.id
                    now
                    (claimed_rows run now s)))
  unfolding Repository.claim_approved_apply
  claim-cases run token payload now s =
      let p = in_status run.id RunStatus.approved in
      elim (Bool-cases (grants (lookup run.id s.approvals) token payload)) [
        | inl e ↦ elim (Bool-cases (nat_beq (count p s.runs) 1)) [
          | inl f ↦ inr (e, (nat_beq_iff _ _).0 f, rw (e, f))
          | inr f ↦ inl (rw (e, f))
        ]
        | inr e ↦ inl (rw e)
      ]

  consume_approval-cases :
      (run_id token payload : String) (now : Time) (s : Store A)
      → (Repository.consume_approval run_id token payload now s ≡ (ok false, s))
        ⊎ ((grants (lookup run_id s.approvals) token payload ≡ true)
            × (Repository.consume_approval run_id token payload now s
                ≡ Repository.consume (lookup run_id s.approvals) run_id now s))
  unfolding Repository.consume_approval
  consume_approval-cases run_id token payload now s =
      elim (Bool-cases (grants (lookup run_id s.approvals) token payload)) [
        | inl e ↦ inr (e, rw e)
        | inr e ↦ inl (rw e)
      ]

  -- A result that spends no more than it takes away, in the form of the two calls above.
  abbrev Fair : String → String → Store A → Result Bool × Store A → Type 0
  Fair k j s r = (if j == k then returned_true r.0 else 0) + outstanding k r.1 ≤ 0 + outstanding k s

  Fair-refused : (k j : String) (s : Store A) → Fair k j s (ok false, s)
  Fair-refused k j s = ground arith

  call-spends :
      (k : String) (c : Call A) (s : Store A)
      → spends k c s + outstanding k (perform c s) ≤ asks k c + outstanding k s
  unfolding spends perform asks
  call-spends k (Call.create run key owner now) s =
      unfold Repository.create outstanding in ground arith
  call-spends k (Call.save run now) s = unfold Repository.save outstanding in ground arith
  call-spends k (Call.claim run token payload now) s = elim (claim-cases run token payload now s) [
    | inl e ↦ subst (Fair k run.id s) (sym e) (Fair-refused k run.id s)
    | inr (_, _, e) ↦ subst (Fair k run.id s) (sym e) (
        unfold outstanding in
        consume-spends run.id k (lookup run.id s.approvals) now (claimed_rows run now s) refl)
  ]
  call-spends k (Call.approve run_id payload token now) s =
      unfold Repository.approve outstanding in
      ground (
        arith,
        lookup-insert run_id k
            (record {
              payload_sha256 = payload;
              approval_token = token;
              approved_at = now;
              consumed_at = none;
            })
            s.approvals,
      )
  call-spends k (Call.consume run_id token payload now) s =
      elim (consume_approval-cases run_id token payload now s) [
        | inl e ↦ subst (Fair k run_id s) (sym e) (Fair-refused k run_id s)
        | inr (_, e) ↦
            subst (Fair k run_id s) (sym e)
              (consume-spends run_id k (lookup run_id s.approvals) now s refl)
      ]
  call-spends k (Call.append run_id t st m p now) s =
      unfold Repository.append_event outstanding in ground arith
  call-spends k (Call.artifact run_id path name sha (ok content) now) s =
      unfold Repository.save_artifact outstanding in ground arith
  call-spends k (Call.artifact run_id path name sha (raised x) now) s =
      unfold Repository.save_artifact outstanding in ground arith

  -- The store after the calls, how many of them spent an approval of the run, and how many asked
  -- for one.
  pub perform_all : List (Call A) → Store A → Store A
  perform_all [] s = s
  perform_all (c ∷ cs) s = perform_all cs (perform c s)

  pub spent : String → List (Call A) → Store A → ℕ
  spent k [] s = 0
  spent k (c ∷ cs) s = spends k c s + spent k cs (perform c s)

  pub asked : String → List (Call A) → ℕ
  asked k [] = 0
  asked k (c ∷ cs) = asks k c + asked k cs

  -- In every sequence of repository calls, in whatever order services and workers make them, the
  -- calls that spend an approval of a run are no more than the calls that ask for one, counting the
  -- approval that is outstanding at the start; one that is outstanding at the end is not spent yet.
  pub spent-le-asked :
      (k : String) (cs : List (Call A)) (s : Store A)
      → spent k cs s + outstanding k (perform_all cs s) ≤ asked k cs + outstanding k s
  unfolding spent asked perform_all
  spent-le-asked k [] s = omega arith
  spent-le-asked k (c ∷ cs) s = omega (arith, call-spends k c s, spent-le-asked k cs (perform c s))

  claim-refused :
      (run : RunView A) (token payload : String) (now : Time) (s : Store A)
      → grants (lookup run.id s.approvals) token payload ≡ false
      → Repository.claim_approved_apply run token payload now s ≡ (ok false, s)
  unfolding Repository.claim_approved_apply
  claim-refused run token payload now s e = rw e

  consume-consumed :
      (k token payload : String) (o : Option Approval) (now : Time) (s : Store A)
      → o ≡ lookup k s.approvals
      → grants o token payload ≡ true
      → ((Repository.consume o k now s).0 ≡ ok true)
        × ((token' payload' : String)
            → grants (lookup k (Repository.consume o k now s).1.approvals) token' payload' ≡ false)
  unfolding Repository.consume grants
  consume-consumed k token payload none now s e g = cc
  consume-consumed k token payload (some a) now s e g = elim (Option-cases a.consumed_at) [
    | inl h ↦ rw h (refl, λ token' payload'. rw lookup-insert_self (ground arith))
    | inr (x, h) ↦ absurd (ground (arith, g, h))
  ]

  -- The two outcomes of a claim, with what is left of the approval.
  pub claim-outcome :
      (run : RunView A) (token payload : String) (now : Time) (s : Store A)
      → let r = Repository.claim_approved_apply run token payload now s in
        (r ≡ (ok false, s))
        ⊎ ((r.0 ≡ ok true)
            × (grants (lookup run.id s.approvals) token payload ≡ true)
            × ((token' payload' : String)
                → grants (lookup run.id r.1.approvals) token' payload' ≡ false))
  claim-outcome run token payload now s = elim (claim-cases run token payload now s) [
    | inl e ↦ inl e
    | inr (g, n, e) ↦
        let o = lookup run.id s.approvals in
        let (t, c) = consume-consumed run.id token payload o now (claimed_rows run now s) refl g in
        inr (
          ap (λ r. r.0) e ∙ t,
          g,
          subst
              (λ x.
                (token' payload' : String)
                → grants (lookup run.id x.approvals) token' payload' ≡ false)
              (sym (ap (λ r. r.1) e)) c,
        )
  ]

  -- A claim that succeeds was made with the token and the payload of an approval that was not
  -- consumed, for a run that was stored as approved, and after it no claim of the run succeeds with
  -- any token and payload; a claim that fails has changed nothing.
  pub claim_once :
      (run : RunView A) (token payload : String) (now : Time) (s : Store A)
      → let (r, s') = Repository.claim_approved_apply run token payload now s in
        ((r ≡ ok false) × (s' ≡ s))
        ⊎ ((r ≡ ok true)
            × (grants (lookup run.id s.approvals) token payload ≡ true)
            × (count (in_status run.id RunStatus.approved) s.runs ≡ 1)
            × ((run' : RunView A) (token' payload' : String) (now' : Time)
                → run'.id ≡ run.id
                → Repository.claim_approved_apply run' token' payload' now' s' ≡ (ok false, s')))
  claim_once run token payload now s = elim (claim-cases run token payload now s) [
    | inl e ↦ inl (ap (λ r. r.0) e, ap (λ r. r.1) e)
    | inr (g, n, e) ↦
        let o = lookup run.id s.approvals in
        let (t, c) = consume-consumed run.id token payload o now (claimed_rows run now s) refl g in
        let q = sym (ap (λ r. r.1) e) in
        inr (
          ap (λ r. r.0) e ∙ t,
          g,
          n,
          λ run' token' payload' now' i. claim-refused run' token' payload' now' _ (
              subst
                (λ j.
                  grants
                    (lookup j (Repository.claim_approved_apply run token payload now s).1.approvals)
                    token' payload'
                  ≡ false)
                (sym i)
                (subst (λ x. grants (lookup run.id x.approvals) token' payload' ≡ false) q
                  (c token' payload'))),
        )
  ]
