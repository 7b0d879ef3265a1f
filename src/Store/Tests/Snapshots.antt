-- ===== src/Store/Tests/Snapshots.antt =====
-- A store that is saved and loaded after a sale, and the properties there.
use basingamarket.Base.{◌≡◌}
use basingamarket.Store.Map.Collect.{Rising, Keyed}
use basingamarket.Store.Ledger.Created.Bound.{apply_all}
use basingamarket.Store.Snapshot.{replace_ledgers, cash_projection_snapshot}
use basingamarket.Store.Snapshot.RoundTrip.{balance_ledger, IsKept, WellKept, with_ledgers_of}
use basingamarket.Store.Snapshot.Kept.Always.{apply_all-WellKept, replace_ledgers-apply_all}
use basingamarket.Store.Tests.Data.{empty}
use basingamarket.Store.Tests.Ledgers.{operations}

empty-WellKept : WellKept empty
unfolding IsKept Rising Keyed
empty-WellKept balance_ledger = (tt, tt)
empty-WellKept other = (tt, tt)

apply_all-WellKept_example : WellKept (apply_all operations empty)
apply_all-WellKept_example = apply_all-WellKept operations empty empty-WellKept

replace_ledgers-apply_all_example :
    replace_ledgers (cash_projection_snapshot (apply_all operations empty)) empty
    ≡ with_ledgers_of (apply_all operations empty) empty
replace_ledgers-apply_all_example = replace_ledgers-apply_all operations empty empty empty-WellKept
