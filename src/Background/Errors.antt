-- ===== src/Background/Errors.antt =====
-- `BackgroundTaskError` of api/src/background_worker/tasks/mod.rs: the errors that the tasks raise
-- themselves. `hub_core` is the `bail!` of api/src/blockchains/polygon.rs; the variants that wrap an
-- error of a service are `fault`.

pub data TaskError : Type 0 where
  blockchain_not_supported record_not_found no_supply no_owner no_project_wallet : TaskError
  no_creator no_metadata_uri hub_core : TaskError
