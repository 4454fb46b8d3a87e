-- ===== src/Examples/Requests.antt =====
-- Submissions for the runs.
use job_stream.Base.{ℕ, zero, suc, none, Text, codes}
use job_stream.Proto.{
  Source, source_dashboard, source_chrome_ext, source_scraper, SubmitApplicationRequest,
}

abbrev request : Text → Text → Text → Source → SubmitApplicationRequest
request job_title company url source = record {
  user_id = codes "ann";
  job_title = job_title;
  company = company;
  url = url;
  source = source;
  applied_at = none;
}

abbrev pub from_page : SubmitApplicationRequest
from_page =
    request (codes "Go  Developer | LinkedIn") (codes "ACME")
      (codes "https://jobs.example/7?ref=mail") source_chrome_ext

abbrev pub from_form : SubmitApplicationRequest
from_form =
    request (codes "go developer ") (codes " Acme") (codes "https://jobs.example/7")
      source_dashboard

abbrev pub other_job : SubmitApplicationRequest
other_job = request (codes "Baker") (codes "Bread") (codes "https://jobs.example/8") source_scraper

abbrev pub no_link : SubmitApplicationRequest
no_link = request (codes "Baker") (codes "Bread") (codes "jobs.example/8") source_scraper

-- The first two are the same application, the others another one.
abbrev pub rivals : ℕ → SubmitApplicationRequest
rivals zero = from_page
rivals (suc zero) = from_form
rivals _ = other_job
