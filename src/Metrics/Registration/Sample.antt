-- ===== src/Metrics/Registration/Sample.antt =====
-- A registry that is the list of its names, for instances of the theorems.
use ghostcacher.Prelude.{refl, none, some, List, [], ◌∷◌, if◌then◌else◌}
use ghostcacher.Text.{Text}
use ghostcacher.Metrics.Registration.{Opts, Prometheus, is_valid, is_new}

abbrev pub listed : Prometheus
listed = record {
  Registry = List Text;
  Collector = Opts;
  new_registry = [];
  names = λ r. r;
  name_of = λ c. c.name;
  with_opts = λ o. if is_valid o then some o else none;
  register = λ c r. if is_new c.name r then some (c.name ∷ r) else none;
  encode = λ r. none;
  names-new_registry = refl;
  with_opts_ok = λ o valid. (o, rw valid refl, refl);
  register_ok = λ c r fresh. (c.name ∷ r, rw fresh refl, refl);
}
