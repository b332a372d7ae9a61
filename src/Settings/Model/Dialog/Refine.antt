-- ===== src/Settings/Model/Dialog/Refine.antt =====
-- The model refines the dialog.
use dev_box.Common.{text_eq, number_eq}
