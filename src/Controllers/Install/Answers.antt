-- ===== src/Controllers/Install/Answers.antt =====
-- What a reconciler of a platform answers and writes, by the steps it is made of: lemmas that the
-- reconcilers share.
use dbaas_operator.Prelude.{
  Bool, true, false, ◌≡◌, refl, Option, none, some, List, ◌∷◌, arith, Bool-cases, inl, inr,
}
use dbaas_operator.Kube.{ObjectKey}
use dbaas_operator.Kube.Errors.{Error, is_not_found}
use dbaas_operator.Api.V1beta1.{result_success, result_failed, result_in_progress}
use dbaas_operator.Controllers.Objects.{Kind, deleted}
use dbaas_operator.Controllers.Client.{Call, change, Action, Run, pure}
use dbaas_operator.Controllers.Platform.{is_success}
use dbaas_operator.Controllers.Install.{
  ObjectClient, Answer, succeeded, applied_answer, conflict_waits, followed_by, after_delete,
  unless_failed,
}

pub followed_by-succeeded :
    {World : Type 0} (first rest : Action World Answer) (s : Run World)
    → (first s).0 ≡ succeeded
    → followed_by first rest s ≡ rest (first s).1
followed_by-succeeded first rest s h = rw h refl

-- Success or in progress without an error, or failed with one.
abbrev pub is_proper : Answer → Bool
is_proper (result_success, none) = true
is_proper (result_in_progress, none) = true
is_proper (result_failed, some e) = true
is_proper _ = false

pub applied_answer-proper : (e : Option Error) → is_proper (applied_answer e) ≡ true
applied_answer-proper none = refl
applied_answer-proper (some e) = refl

pub conflict_waits-proper : (e : Option Error) → is_proper (conflict_waits e) ≡ true
conflict_waits-proper none = refl
conflict_waits-proper (some e) = ground arith

-- The log after an action: the one before it, with calls of which `P` holds in front.
pub data Extends (P : Call → Type 0) (before : List Call) : List Call → Type 0 where
  unchanged : Extends P before before
  one_more :
      {c : Call} {after : List Call} → P c → Extends P before after → Extends P before (c ∷ after)

module _ {P : Call → Type 0} where
  pub Extends-trans :
      {a b : List Call} (c : List Call) → Extends P a b → Extends P b c → Extends P a c
  Extends-trans c ab unchanged = ab
  Extends-trans (d ∷ c) ab (one_more p bc) = one_more p (Extends-trans c ab bc)

-- Of what an action leaves: its answer is proper, and it wrote only calls of which `P` holds.
module _ {World : Type 0} (P : Call → Type 0) where
  pub record IsGood (calls : List Call) (r : Answer × Run World) : Type 0 where
    pub proper : is_proper r.0 ≡ true
    pub writes : Extends P calls r.1.calls

  abbrev pub IsStep : Action World Answer → Type 0
  IsStep m = (s : Run World) → IsGood s.calls (m s)

module _ {World : Type 0} {P : Call → Type 0} where
  pub kept :
      {a : Answer} {w : World} {calls : List Call}
      → is_proper a ≡ true
      → IsGood P calls (a, record { world = w; calls = calls })
  kept h = record { proper = h; writes = unchanged }

  pub succeeded-IsStep : IsStep {World = World} P (pure succeeded)
  succeeded-IsStep s = kept refl

  -- One call was written.
  pub wrote :
      {a : Answer} {calls : List Call} {c : Call} {w : World}
      → is_proper a ≡ true
      → P c
      → IsGood P calls (a, record { world = w; calls = c ∷ calls })
  wrote h p = record { proper = h; writes = one_more p unchanged }

  -- One call was written before.
  pub wrote_before :
      {calls : List Call} {r : Answer × Run World} {c : Call}
      → P c
      → IsGood P (c ∷ calls) r
      → IsGood P calls r
  wrote_before p g = record {
    proper = g.proper;
    writes = Extends-trans _ (one_more p unchanged) g.writes;
  }

  pub followed_by-IsStep :
      (first rest : Action World Answer)
      → IsStep P first
      → IsStep P rest
      → IsStep P (followed_by first rest)
  followed_by-IsStep first rest hf hr s = elim (Bool-cases (is_success (first s).0.0)) [
    | inl e ↦ rw e (record {
      proper = (hr (first s).1).proper;
      writes = Extends-trans _ (hf s).writes (hr (first s).1).writes;
    })
    | inr e ↦ rw e (hf s)
  ]

  unless_failed-IsStep :
      (rest : Action World Answer) (e : Option Error)
      → IsStep P rest
      → IsStep P (unless_failed rest e)
  unless_failed-IsStep rest none h s = h s
  unless_failed-IsStep rest (some e) h s = elim (Bool-cases (is_not_found e)) [
    | inl found ↦ rw found (h s)
    | inr found ↦ rw found (kept refl)
  ]

  pub after_delete-IsStep :
      (client : ObjectClient World) (k : Kind) (key : ObjectKey) (rest : Action World Answer)
      → P (change (deleted k key))
      → IsStep P rest
      → IsStep P (after_delete client k key rest)
  after_delete-IsStep client k key rest p h s = wrote_before p (unless_failed-IsStep rest _ h _)
