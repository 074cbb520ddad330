-- ===== src/Examples.antt =====
-- Tests of the model at concrete inputs, and instances of the theorems.
mod Objects
mod Loud
mod Webhook
mod Cluster
mod Reconcile
mod Tickers
mod Ready
mod Steady
mod Storage
mod Release
mod Startup
mod Voters
