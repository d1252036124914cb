-- ===== src/Store/Ensures.antt =====
-- A logic for actions. `Ensures I Q` says of a run's end that the committed state satisfies `I`
-- whether the run returned or raised, and that the transaction's view satisfies `Q` if it returned.
pub mod Core
pub mod Steps
pub mod Outcomes
pub use escrow_fx_marketplace.Store.Ensures.Core.{
  Ensures, Ensures-bind, Ensures-then, raise_if-Ensures, write_if-Ensures, wait-Ensures,
  fetch-Ensures, Ensures-weaken, for_each-Ensures, transact-Ensures, IsSerial, returned, raised,
  value-Ensures,
}
pub use escrow_fx_marketplace.Store.Ensures.Steps.{
  reads-Ensures, pure-bind-Ensures, lift-Ensures, utc_now-Ensures, uuid4-Ensures, write-Ensures,
  commit-Ensures, pure-Ensures, raise-Ensures, fetch_last-Ensures, lift_last-Ensures, when-Ensures,
  write_last-Ensures, write_if_last-Ensures, raise_if_last-Ensures, collect-Ensures,
}
pub use escrow_fx_marketplace.Store.Ensures.Outcomes.{
  Ends, IsOutcome, Ends-bind, ended, failed, Ends-then, raise_if-Ends, utc_now-Ends, commit-Ends,
  pure-Ends, fetch-Ends, reads-Ends, transact-Ends,
}
