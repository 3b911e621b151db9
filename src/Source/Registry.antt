-- ===== src/Source/Registry.antt =====
-- The backends that the registry of kmod/vpipe-source.c offers.
use vpipe.Base.{
  ℕ, ◌≡◌, Bool, true, none, some, ◌==◌, arith, if◌then◌else◌, Result, ok, err, einval, ebusy,
  ok_inj, subst,
}
use vpipe.Backend.{backend_fixture, backend_synthetic, backend_vcam_derived}
use vpipe.Source.{
  SourceOps, Source, BackendOps, is_some, backend_id_valid, create_with, source_register,
  source_create,
}
use vpipe.Source.Backends.{fixture_ops, synthetic_ops, vcam_ops, register_all}

-- What `vpipe_source_create` returns for an identifier once a backend has been registered.
abbrev created : BackendOps → ℕ → SourceOps → Bool → ℕ → Result Source
created slots id ops allocated i =
    if id == i then create_with i allocated (some ops) else source_create slots allocated i

-- A backend that has been registered is the one that a later create of its identifier gives, with no
-- private state and the sequence at 0; creating any other identifier gives what it gave before.
source_create-source_register :
    (slots slots' : BackendOps) (id : ℕ) (ops : SourceOps) (allocated : Bool) (i : ℕ)
    → source_register slots id (some ops) ≡ ok slots'
    → source_create slots' allocated i ≡ created slots id ops allocated i
unfolding source_create source_register
source_create-source_register slots slots' id ops allocated i h = ground arith

-- A slot is never taken over: once a backend has been registered, another with that identifier and a
-- `next_frame` is refused with -EBUSY.
source_register-twice :
    (slots slots' : BackendOps) (id : ℕ) (ops ops' : SourceOps)
    → source_register slots id (some ops) ≡ ok slots'
    → is_some ops'.next_frame ≡ true
    → source_register slots' id (some ops') ≡ err ebusy
unfolding source_register
source_register-twice slots slots' id ops ops' h next = ground arith

chosen :
    (allocated : Bool) (id : ℕ) (a b c : SourceOps)
    → (if backend_id_valid id
        then create_with id allocated (
            if 3 == id
            then some c
            else if 2 == id
            then some b
            else if 1 == id
            then some a
            else none)
        else err einval)
      ≡ (if id == 1
          then create_with id allocated (some a)
          else if id == 2
          then create_with id allocated (some b)
          else if id == 3
          then create_with id allocated (some c)
          else err einval)
chosen allocated id a b c = ground arith

-- What `vpipe_source_create` gives for an identifier after `vpipe_init`.
abbrev built_in : Bool → ℕ → Result Source
built_in allocated id =
    if id == backend_fixture
    then create_with id allocated (some fixture_ops)
    else if id == backend_synthetic
    then create_with id allocated (some synthetic_ops)
    else if id == backend_vcam_derived
    then create_with id allocated (some vcam_ops)
    else err einval

-- After `vpipe_init` has registered the backends, a source can be created for the fixture, the
-- synthetic and the vcam-derived backend, each with its own operations, and for nothing else.
source_create-register_all :
    (slots : BackendOps) (allocated : Bool) (id : ℕ)
    → register_all (λ _. none) ≡ ok slots
    → source_create slots allocated id ≡ built_in allocated id
unfolding register_all source_create
source_create-register_all slots allocated id h =
    subst (λ s. source_create s allocated id ≡ built_in allocated id) (ok_inj h)
      (chosen allocated id fixture_ops synthetic_ops vcam_ops)
