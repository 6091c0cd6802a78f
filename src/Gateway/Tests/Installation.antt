-- ===== src/Gateway/Tests/Installation.antt =====
-- An installation on the sample database.
use urban_farming_backend.Prelude.{◌≡◌, refl, none, [], ◌∷◌}
use urban_farming_backend.Db.{Db, ok}
use urban_farming_backend.Db.Status.{
  needing_implements, AssignmentStatus, AssessmentStatus, StageKey, InstallType,
  AssessmentStatus-discrete, StageKey-discrete,
}
use urban_farming_backend.Gateway.Sample.{sample, request_in, report_in, stage, zero_double}
use urban_farming_backend.Gateway.Tables.{approved_report, is_stage_of}
use urban_farming_backend.Gateway.Installing.{
  InstallationPayload, Installing, first_installation, installed_request,
  complete_garden_installation,
}
use urban_farming_backend.Gateway.Installing.Laws.{
  IsReadyToInstall, recorded_installation, after_installing,
}
use urban_farming_backend.Gateway.Installing.Effects.{
  IsInstalled, complete_garden_installation-IsInstalled, complete_garden_installation-commits,
}

abbrev equipped : Db
equipped = sample needing_implements AssignmentStatus.completed AssessmentStatus.approved [] []

abbrev payload : InstallationPayload
payload = record {
  install_type = InstallType.raised_bed;
  size_m2 = zero_double;
  capacity_units = 12;
  installed_at = 5;
  photos = "before.jpg" ∷ [];
  maintenance_notes = none;
}

abbrev installing : Installing
installing = record {
  request = request_in needing_implements;
  report = report_in AssessmentStatus.approved;
  installation_stage = stage 85 StageKey.installation;
  allocation_stage = stage 86 StageKey.crop_allocation;
}

installing-ready : IsReadyToInstall 10 20 equipped installing
unfolding approved_report is_stage_of AssessmentStatus-discrete StageKey-discrete
installing-ready = record {
  found = refl;
  waiting = refl;
  linked = refl;
  approved = refl;
  staged = refl;
  next_staged = refl;
}

complete_garden_installation-commits_example :
    complete_garden_installation 10 20 payload 4 500 equipped
    ≡ ok (
      (
        installed_request (request_in needing_implements),
        recorded_installation 20 payload 500 installing equipped (first_installation 20 equipped),
      ),
      after_installing 10 20 payload 4 500 installing equipped (first_installation 20 equipped),
    )
complete_garden_installation-commits_example =
    complete_garden_installation-commits 10 20 payload 4 500 equipped installing installing-ready

complete_garden_installation-IsInstalled_example :
    (c : Installing) × IsInstalled 10 20 payload c
      (installed_request (request_in needing_implements))
      (recorded_installation 20 payload 500 installing equipped (first_installation 20 equipped))
      equipped
      (after_installing 10 20 payload 4 500 installing equipped (first_installation 20 equipped))
complete_garden_installation-IsInstalled_example =
    complete_garden_installation-IsInstalled 10 20 payload 4 500 equipped
      (
        (
          installed_request (request_in needing_implements),
          recorded_installation 20 payload 500 installing equipped (first_installation 20 equipped),
        ),
        after_installing 10 20 payload 4 500 installing equipped (first_installation 20 equipped),
      )
      complete_garden_installation-commits_example
