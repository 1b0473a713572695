-- ===== src/Plic/Layout/Gateway.antt =====
-- The life of a request of one source: raised by its level, claimed by one context, completed.
use here.Base.{Bool, arith, false, if◌then◌else◌, not, some, true, ℕ, ◌&&◌, ◌==◌, ◌||◌, ◌≡◌}
use here.Plic.BitReg.{get_bit}
use here.Plic.BitReg.Laws.{get_bit-clear_bit, get_bit-set_bit, take_bit-eq}
use here.Plic.BitSet.{BitSet}
use here.Plic.Layout.{
  PlicLayout, find_pending_interrupt, is_enabled, is_valid_interrupt_id, read_claim,
  set_source_level, write_complete,
}

pub record Gateway : Type 0 where
  pub is_pending : Bool
  pub is_busy : Bool
  pub is_high : Bool

-- The abstract gateway: a high level makes a request unless one is pending or claimed; a low
-- level retracts none; a claim moves the request to the context; a completion lets a level that
-- is still high make the next request.
abbrev pub sample : Bool → Gateway → Gateway
sample true g = record {
  is_pending = g.is_pending || not g.is_busy;
  is_busy = g.is_busy;
  is_high = true;
}
sample false g = record g { is_high = false }

abbrev pub claim : Gateway → Gateway
claim g = record g { is_pending = false; is_busy = true }

abbrev pub complete : Gateway → Gateway
complete g = record {
  is_pending = g.is_pending || (g.is_busy && g.is_high);
  is_busy = false;
  is_high = g.is_high;
}

module _ (B : BitSet) where
  open B use {contains, insert, remove, contains-insert, contains-remove, removed}

  abbrev pub gateway : PlicLayout B → ℕ → Gateway
  gateway l i = record {
    is_pending = get_bit l.pending i;
    is_busy = contains l.interrupt_sources_busy i;
    is_high = get_bit l.source_level i;
  }

  -- Sampling the level of one source steps its gateway and no other.
  pub gateway-set_source_level :
      (l : PlicLayout B) (i j : ℕ) (level : Bool)
      → gateway (set_source_level B l i level) j
        ≡ (if i == j then sample level (gateway l j) else gateway l j)
  unfolding set_source_level
  gateway-set_source_level l i j level = ground (
    arith,
    get_bit-set_bit l.pending i j,
    get_bit-set_bit l.source_level i j,
    get_bit-clear_bit l.source_level i j,
  )

  -- Where the arbitration without the threshold chooses a source, a claim returns it and steps its
  -- gateway and no other.
  pub gateway-read_claim :
      (l : PlicLayout B) (c id j : ℕ)
      → find_pending_interrupt B l c false ≡ some id
      → ((read_claim B l c).0 ≡ id)
        × (gateway (read_claim B l c).1 j ≡ (if id == j then claim (gateway l j) else gateway l j))
  unfolding read_claim
  gateway-read_claim l c id j h = ground (
    arith,
    take_bit-eq l.pending id,
    get_bit-clear_bit l.pending id j,
    contains-insert l.interrupt_sources_busy id j,
  )

  -- A completion steps the gateway of the named source and no other, if the id is that of a
  -- source which is enabled for the completing context; else it changes nothing.
  pub gateway-write_complete :
      (l : PlicLayout B) (c i j : ℕ)
      → gateway (write_complete B l c i) j ≡ (
          if is_valid_interrupt_id i && is_enabled B l c i && i == j
          then complete (gateway l j)
          else gateway l j)
  unfolding write_complete
  gateway-write_complete l c i j = ground (
    arith,
    get_bit-set_bit l.pending i j,
    contains-remove l.interrupt_sources_busy i j,
    removed l.interrupt_sources_busy i,
  )
