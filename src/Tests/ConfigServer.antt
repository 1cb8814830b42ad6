-- ===== src/Tests/ConfigServer.antt =====
-- A server of Kubeconfig objects that answers REST requests.
use kubecon.Prelude.{
  ℕ, String, ◌≡◌, Bool, true, Option, none, some, List, [], ◌==◌, ◌&&◌, eq_iff, if◌then◌else◌,
  arith, refl,
}
use kubecon.Prelude.Exec.{Exec}
use kubecon.Api.{Kubeconfig}
use kubecon.Platform.Laws.{kubeconfig_content}
use kubecon.Platform.Served.{Part}
use kubecon.Client.Typed.{Rest, Verb, get_verb, put_verb, post_verb, Call, Params, Body, object}
use kubecon.Client.Typed.Laws.{resource_of, name_of, body_of, ServesObjects, CreatesObjects}
use kubecon.Tests.Machine.{Site}

abbrev Entries : Type 0
Entries = String → Option Kubeconfig

-- What is under a name, if it bears the name.
abbrev at : Entries → String → Option Kubeconfig
at o n = elim (o n) [ none ↦ none | some k ↦ if k.metadata.name == n then some k else none ]

abbrev pub config_at : Entries → String → Option Kubeconfig
config_at o n = elim (at o n) [ none ↦ none | some k ↦ some (kubeconfig_content k) ]

abbrev failed : Kubeconfig → Exec Entries (Kubeconfig × Option String)
failed z o = ((z, some "refused"), o)

abbrev put_at : String → Kubeconfig → Exec Entries (Kubeconfig × Option String)
put_at n k o = ((k, none), λ m. if n == m then some k else o m)

abbrev Request : Type 0
Request = List (Call (Params Bool Bool) (Body Kubeconfig String))

abbrev serve_put :
    String
    → Option String
    → Option (Body Kubeconfig String)
    → Kubeconfig
    → Exec Entries (Kubeconfig × Option String)
serve_put r (some n) (some (object k)) z o =
    if (r == "kubeconfigs") && (k.metadata.name == n) then put_at n k o else failed z o
serve_put r _ _ z o = failed z o

abbrev serve_post :
    String
    → Option (Body Kubeconfig String)
    → Kubeconfig
    → Exec Entries (Kubeconfig × Option String)
serve_post r (some (object k)) z o =
    if r == "kubeconfigs" then put_at k.metadata.name k o else failed z o
serve_post r _ z o = failed z o

abbrev serve_get : String → Option String → Kubeconfig → Exec Entries (Kubeconfig × Option String)
serve_get r none z o = failed z o
serve_get r (some n) z o = elim (at o n) [
  | none ↦ failed z o
  | some k ↦ if r == "kubeconfigs" then ((k, none), o) else failed z o
]

abbrev serve : Verb → Request → Kubeconfig → Exec Entries (Kubeconfig × Option String)
serve put_verb q z o = serve_put (resource_of "" q) (name_of none q) (body_of none q) z o
serve post_verb q z o = serve_post (resource_of "" q) (body_of none q) z o
serve get_verb q z o = serve_get (resource_of "" q) (name_of none q) z o
serve _ q z o = failed z o

abbrev pub config_server : Rest String Kubeconfig
config_server = record {
  Outside = Entries;
  GetOptions = Bool;
  ListOptions = Bool;
  DeleteOptions = String;
  ListOf = List Kubeconfig;
  Watch = ℕ;
  with_watch = λ o. true;
  do_into = serve;
  do_into_list = λ v q o. (([], none), o);
  do_error = λ v q o. (none, o);
  do_watch = λ v q o. ((none, none), o);
}

pub config_server-ServesObjects :
    ServesObjects config_server "kubeconfigs"
      (λ k. some (kubeconfig_content k))
      kubeconfig_content
      config_at
config_server-ServesObjects = record {
  put_accepted = λ q n a z o r name b h m.
      rw name
        (rw b (ground (arith, eq_iff a.metadata.name n, eq_iff n m, eq_iff a.metadata.name m)));
  put_refused = λ q z o e h m. ground arith;
  get_answered = λ q n z o r name h. ground arith;
  get_keeps = λ q z o m. ground arith;
}

pub config_server-CreatesObjects :
    CreatesObjects config_server "kubeconfigs"
      (λ k. k.metadata.name)
      (λ k. some (kubeconfig_content k))
      config_at
config_server-CreatesObjects = record {
  post_accepted = λ q a z o r b h m. ground (arith, b, eq_iff a.metadata.name m);
}

pub named_at :
    (o : Entries) (n : String) (k : Kubeconfig) → config_at o n ≡ some k → k.metadata.name ≡ n
named_at o n k h = ground (arith, eq_iff k.metadata.name n)

-- the Kubeconfigs of a site
abbrev pub configs_part : Part Site Entries
configs_part = record {
  part_of = λ s. s.kubeconfigs;
  with_part = λ c s. record s { kubeconfigs = c };
  read_written = λ c s. refl;
}
