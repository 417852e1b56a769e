-- ===== src/Examples/Views.antt =====
-- The theorem on the times of the views, at one time.
use duck_voyage.Prelude.{◌-◌}
use duck_voyage.Web.Views.{ago}
use duck_voyage.Web.Views.Time.{Says, ago-Says}

ago-Says_example : Says (500000 - 100000) (ago 500000 100000)
ago-Says_example = ago-Says 500000 100000
