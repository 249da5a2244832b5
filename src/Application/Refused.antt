-- ===== src/Application/Refused.antt =====
-- Why `PMQAApplicationService.execute` refuses its arguments before the runner is called.
use pmqa.Base.{Result, ok, Bool}
use pmqa.Runners.Contracts.{RunnerRequest}
use pmqa.Application.Contracts.{Failure}
use pmqa.Application.Service.{Admission}
use pmqa.Application.Dispatch.{Prepared}

abbrev prepared_as : Admission → RunnerRequest → Bool → Result Failure Prepared
prepared_as a request control = ok (record { admission = a; request = request; control = control })
