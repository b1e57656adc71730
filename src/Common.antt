-- ===== src/Common.antt =====
-- What both controllers of internal/controller share: the text helpers at the end of
-- gpunodepolicy_controller.go, and FilterNodes, which the two controllers write out alike.
pub mod Text
pub mod Filter
pub mod Client
pub mod Outcome
pub mod DeepEqual
