-- ===== src/Broker/Resolver/Tests.antt =====
-- Runs of the resolver (container-resolver.ts) on concrete containers.
use docker_webmail_gui.Broker.Resolver.{
  ServiceIdentity, RawContainerListItem, ManagedContainerRef, resolved, matches_service_identity,
  select_single_match, split_label,
}
use docker_webmail_gui.Broker.Resolver.Unique.{
  IsOnly, Verdict, select_single_match-IsOnly, select_single_match-Verdict,
}
use docker_webmail_gui.Common.{◌≡◌, refl, none, some, List, [], ◌∷◌, count_where}

abbrev mail_name : ServiceIdentity
mail_name = record { container_name = "mailserver"; container_label = none }

abbrev mail_label : ServiceIdentity
mail_label = record { container_name = ""; container_label = some "role=mail" }

abbrev containers : List RawContainerListItem
containers =
    record { id = "1"; names = "/mailserver-old" ∷ []; labels = [] }
    ∷ record { id = "2"; names = "/mailserver" ∷ []; labels = ("role", "mail") ∷ [] }
    ∷ []

abbrev mail_ref : ManagedContainerRef
mail_ref = record { id = "2"; name = "/mailserver" }

resolves : select_single_match containers mail_name ≡ resolved mail_ref
unfolding select_single_match matches_service_identity
resolves = refl

resolves_label : select_single_match containers mail_label ≡ resolved mail_ref
unfolding select_single_match matches_service_identity split_label
resolves_label = refl

select_single_match-IsOnly_example : IsOnly mail_name containers mail_ref
select_single_match-IsOnly_example =
    select_single_match-IsOnly containers mail_name mail_ref resolves

select_single_match-Verdict_example :
    Verdict mail_name
      (count_where (matches_service_identity mail_name) containers)
      (select_single_match containers mail_name)
select_single_match-Verdict_example = select_single_match-Verdict containers mail_name
