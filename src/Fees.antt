-- ===== src/Fees.antt =====
-- x/fees: the share of the collected fees that is burnt at the end of each block. The children
-- are the parameters (x/fees/types/params.go), the keeper (keeper/keeper.go), its end blocker
-- (keeper/abci.go), messages and genesis, and what is proved of them.
pub mod Params
pub mod Keeper
pub mod EndBlock
pub mod Genesis
pub mod Chain
pub mod Tests
