-- ===== src/Vmcapabilities/Concurrent/Tests.antt =====
-- Two requests for one location that is not in the cache: both find it missing, one waits for the other,
-- and then lists it again.
use azure_admission_controll.Prelude.{true, String, List, [], ◌∷◌, refl, get, put}
use azure_admission_controll.Result.{err}
use azure_admission_controll.Error.{sku_not_found}
use azure_admission_controll.Vmcapabilities.{cached_sku}
use azure_admission_controll.Vmcapabilities.Caching.{IsFaithful}
use azure_admission_controll.Vmcapabilities.Concurrent.{
  waiting, holding, reading, finished, System, start, advance, goes, here, there, Runs, begin,
  then_step,
}
use azure_admission_controll.Vmcapabilities.Concurrent.Interleaving.{Inv, Runs-Inv}
use azure_admission_controll.Vmcapabilities.Concurrent.Endings.{Ends, Runs-Ends}
use azure_admission_controll.Example.{azure, cold}

abbrev questions : List (String × String)
questions = ("westeurope", "Standard_D4s_v3") ∷ ("westeurope", "missing") ∷ []

cold-IsFaithful : IsFaithful azure cold
unfolding get
cold-IsFaithful = record { at = λ l c h. absurd cc }

-- The first request holds the lock while the second waits for it.
abbrev crowded : System
crowded = record {
  shared = record { skus = cold; locked = true };
  threads =
      record { location = "westeurope"; vm_type = "Standard_D4s_v3"; pc = holding }
      ∷ record { location = "westeurope"; vm_type = "missing"; pc = waiting }
      ∷ [];
}

crowded-Runs : Runs azure (start cold questions) 3 crowded
unfolding start advance get
crowded-Runs =
    then_step 2 _ _
      (then_step 1 _ _ (then_step 0 _ _ begin (goes _ _ _ waiting _ _ refl (here _)))
        (goes _ _ _ waiting _ _ refl (there _ _ _ (here _))))
      (goes _ _ _ holding _ _ refl (here _))

Runs-Inv_example : Inv azure crowded
Runs-Inv_example = Runs-Inv azure cold questions cold-IsFaithful crowded-Runs

-- Four steps of each bring both to their end.
over : (s : System) × Runs azure (start cold questions) 8 s
unfolding start advance get put cached_sku
over = (
  _,
  then_step 7 _ _
      (then_step 6 _ _
        (then_step 5 _ _
          (then_step 4 _ _ (then_step 3 _ _ crowded-Runs (goes _ _ _ reading _ _ refl (here _)))
            (goes _ _ _ holding _ _ refl (there _ _ _ (here _))))
          (goes _ _ _ _ _ _ refl (here _)))
        (goes _ _ _ reading _ _ refl (there _ _ _ (here _))))
      (goes _ _ _ (finished (err sku_not_found)) _ _ refl (there _ _ _ (here _))),
)

Runs-Ends_example : Ends azure questions 8 over.0
Runs-Ends_example = Runs-Ends azure cold questions cold-IsFaithful over.1
