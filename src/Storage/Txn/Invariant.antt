-- ===== src/Storage/Txn/Invariant.antt =====
-- The well-formedness of a manager, its steps, and what a later state keeps of an earlier one.
use lightsql.Common.{ℕ, ◌+◌, ◌≤◌, ◌<◌, ◌≡◌, ◌≢◌, refl, Bool, true, false, Option, none, some, arith}
use lightsql.Storage.Txn.{
  TxManager, Status, in_progress, committed, aborted, new_tx_manager, contains, begin, finish,
  commit, abort, id_mod,
}
use lightsql.Storage.Txn.Maps.{contains-set_add, contains-set_delete}

abbrev pub running : Option Status → Bool
running (some in_progress) = true
running _ = false

-- Ids are issued from 1 upwards, and `active` holds exactly the ids whose outcome is open.
pub record IsWf (m : TxManager) : Type 0 where
  pub positive : 0 < m.next
  pub in_range : m.next < id_mod
  pub zero_free : m.status 0 ≡ none
  pub unissued : (id : ℕ) → m.next ≤ id → m.status id ≡ none
  pub active_open : (id : ℕ) → contains m.active id ≡ running (m.status id)

pub new_tx_manager-IsWf : IsWf new_tx_manager
unfolding new_tx_manager
new_tx_manager-IsWf = record {
  positive = omega arith;
  in_range = omega arith;
  zero_free = refl;
  unissued = λ id h. refl;
  active_open = λ id. refl;
}

pub begin-IsWf : (m : TxManager) → IsWf m → m.next + 1 < id_mod → IsWf (begin m).0
unfolding begin
begin-IsWf m w room = record {
  positive = ground (arith, w.positive);
  in_range = ground arith;
  zero_free = ground (arith, w.zero_free, w.positive);
  unissued = λ id h. ground (arith, w.unissued id);
  active_open = λ id. ground (arith, contains-set_add m.next id m.active, w.active_open id);
}

pub finish-IsWf :
    (id : ℕ) (s : Status) (m : TxManager) → s ≢ in_progress → IsWf m → IsWf (finish id s m)
unfolding finish
finish-IsWf id s m final w = record {
  positive = ground (arith, w.positive);
  in_range = ground (arith, w.in_range);
  zero_free = ground (arith, w.zero_free);
  unissued = λ j h. ground (arith, w.unissued j, w.unissued id);
  active_open = λ j.
      ground (arith, contains-set_delete id j m.active, w.active_open j, w.active_open id, final);
}

-- What other connections do to the manager.
pub data Step (m : TxManager) : TxManager → Type 0 where
  begins : m.next + 1 < id_mod → Step m (begin m).0
  commits : (id : ℕ) → Step m (commit id m)
  aborts : (id : ℕ) → Step m (abort id m)

pub data Reach (m : TxManager) : TxManager → Type 0 where
  here : Reach m m
  more : {m' m'' : TxManager} → Reach m m' → Step m' m'' → Reach m m''

pub Step-IsWf : {m m' : TxManager} → Step m m' → IsWf m → IsWf m'
unfolding commit abort
Step-IsWf {m} (begins room) w = begin-IsWf m w room
Step-IsWf {m} (commits id) w = finish-IsWf id committed m (λ e. cc) w
Step-IsWf {m} (aborts id) w = finish-IsWf id aborted m (λ e. cc) w

pub Reach-IsWf : {m m' : TxManager} → IsWf m → Reach m m' → IsWf m'
Reach-IsWf w here = w
Reach-IsWf w (more r st) = Step-IsWf st (Reach-IsWf w r)

-- An id that was issued and is no longer running keeps its outcome.
pub record Later (m m' : TxManager) : Type 0 where
  pub grows : m.next ≤ m'.next
  pub settled : (id : ℕ) → id < m.next → running (m.status id) ≡ false → m'.status id ≡ m.status id

pub Later-refl : (m : TxManager) → Later m m
Later-refl m = record { grows = omega arith; settled = λ id h r. refl }

begin-Later : (m : TxManager) → m.next + 1 < id_mod → Later m (begin m).0
unfolding begin
begin-Later m room = record { grows = ground arith; settled = λ id h r. ground arith }

finish-Later : (id : ℕ) (s : Status) (m : TxManager) → Later m (finish id s m)
unfolding finish
finish-Later id s m = record { grows = ground arith; settled = λ j h r. ground arith }

pub Step-Later : {m m' : TxManager} → Step m m' → Later m m'
unfolding commit abort
Step-Later {m} (begins room) = begin-Later m room
Step-Later {m} (commits id) = finish-Later id committed m
Step-Later {m} (aborts id) = finish-Later id aborted m

pub Later-trans : {m m' m'' : TxManager} → Later m m' → Later m' m'' → Later m m''
Later-trans {m} {m'} {m''} a b = record {
  grows = omega (arith, a.grows, b.grows);
  settled = λ id h r. ground (arith, a.settled id, b.settled id, a.grows);
}

pub Reach-Later : {m m' : TxManager} → Reach m m' → Later m m'
Reach-Later {m} here = Later-refl m
Reach-Later (more r st) = Later-trans (Reach-Later r) (Step-Later st)

pub begin_running :
    (m : TxManager) (self : ℕ)
    → IsWf m
    → m.status self ≡ some in_progress
    → (begin m).0.status self ≡ some in_progress
unfolding begin
begin_running m self w h = ground (arith, h)

finish_running :
    (m : TxManager) (id self : ℕ) (s : Status)
    → id ≢ self
    → m.status self ≡ some in_progress
    → (finish id s m).status self ≡ some in_progress
unfolding finish
finish_running m id self s ne h = ground arith

pub commit_running :
    (m : TxManager) (id self : ℕ)
    → id ≢ self
    → m.status self ≡ some in_progress
    → (commit id m).status self ≡ some in_progress
unfolding commit
commit_running m id self = finish_running m id self committed

pub abort_running :
    (m : TxManager) (id self : ℕ)
    → id ≢ self
    → m.status self ≡ some in_progress
    → (abort id m).status self ≡ some in_progress
unfolding abort
abort_running m id self = finish_running m id self aborted
