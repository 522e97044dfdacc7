-- ===== src/Tests/Server.antt =====
-- Requests to the HTTP endpoint.
use git_sync.Common.{◌≡◌, refl, true, false, codes, equal, has_prefix, split, join}
use git_sync.Program.{health}
use git_sync.Path.{clean, go_up, push_part, render}
use git_sync.Flags.{Flags}
use git_sync.Http.{
  serve, clean_url, routes, exact, longest, find_handler, answer_by, status, redirect, index_page,
}
use git_sync.Http.Served.{serve-expected, expected}
use git_sync.Tests.World.{flags, start}

abbrev profiled : Flags
profiled = record flags { http_pprof = true; http_metrics = false }

serve-expected_example :
    serve profiled start (codes "/debug/pprof/heap")
    ≡ expected profiled start (codes "/debug/pprof/heap")
unfolding clean_url clean go_up push_part render equal has_prefix split join
serve-expected_example = serve-expected profiled start (codes "/debug/pprof/heap") refl refl

-- One of the other profiles, by the index; the index; and metrics that are not served.
heap : serve profiled start (codes "/debug/pprof/heap") ≡ index_page
unfolding serve routes exact longest find_handler answer_by clean_url clean go_up push_part render
    equal has_prefix split join
heap = refl

without_slash : serve profiled start (codes "/debug/pprof") ≡ redirect (codes "/debug/pprof/")
unfolding serve routes exact longest find_handler answer_by clean_url clean go_up push_part render
    equal has_prefix split join
without_slash = refl

no_metrics : serve profiled start (codes "/metrics") ≡ status 503
unfolding serve routes exact longest find_handler answer_by clean_url clean go_up push_part render
    equal has_prefix split join health
no_metrics = refl

unclean : serve profiled start (codes "/x/../metrics") ≡ redirect (codes "/metrics")
unfolding serve routes exact longest find_handler answer_by clean_url clean go_up push_part render
    equal has_prefix split join
unclean = refl
