-- ===== src/Transport/Tests.antt =====
-- Requests of an operator and of a stranger to the small host.
use kernmux.Prelude.{◌≡◌, refl, none, some, [], inl, inr, arith}
use kernmux.Prelude.Order.{compare_bytes}
use kernmux.Prelude.Parsing.{parse_unsigned, split_on, strip_prefix, has_byte}
use kernmux.Prelude.Text.{text}
use kernmux.Prelude.TreeSet.{contains, insert}
use kernmux.Api.{HostSnapshot}
use kernmux.Sample.{host}
use kernmux.HostApi.{
  Method, RouteSecurity, endpoint, image_resource, instance_action, instance_resource,
  operation_id_from_path, os_image_resource, resource, route_at, route_endpoint, route_for,
  route_resource,
}
use kernmux.HostApi.Service.Effects.{IsRead}
use kernmux.HostApi.Service.Sample.{
  codec, consoles, idle, inventory, links, no_images, no_storage, now, stranger,
}
use kernmux.HostApi.Service.Types.{HostState}
use kernmux.Security.{
  AuditAction, AuthorizationPolicy, RequestClass, deny_by_default, with_operator_uid,
}
use kernmux.Security.Decision.{IsAdministrator, IsOperator}
use kernmux.Transport.{HttpRequest, LocalApi, handle_request}
use kernmux.Transport.Guards.{IsGuarded, handle_request-IsGuarded}
use kernmux.Transport.Host.{host_api, unprivileged-IsRead}

abbrev policy : AuthorizationPolicy
policy = with_operator_uid deny_by_default 1000

abbrev start_beta : HttpRequest
start_beta = record {
  method = Method.post;
  path = text "/1.0/instances/2/start";
  query = none;
  request_id_header = some (text "r-1");
  upgrade_header = none;
  connection_header = none;
  body = some [];
}

abbrev mutation : RouteSecurity
mutation = record { class = RequestClass.mutation; audit_action = AuditAction.mutate_lifecycle }

abbrev sample_api : LocalApi (HostState × HostSnapshot)
sample_api = host_api inventory no_images no_storage codec links consoles now

start_routed : sample_api.route Method.post (text "/1.0/instances/2/start") ≡ some mutation
unfolding host_api route_for route_at endpoint resource route_endpoint route_resource text
    compare_bytes operation_id_from_path image_resource os_image_resource instance_resource
    instance_action strip_prefix split_on parse_unsigned has_byte
start_routed = refl

handle_request-IsGuarded_example :
    IsGuarded sample_api stranger policy 1024 start_beta mutation
      (idle, host)
      (handle_request sample_api stranger policy 1024 start_beta (idle, host))
handle_request-IsGuarded_example =
    handle_request-IsGuarded sample_api stranger policy 1024 start_beta mutation (idle, host)
      start_routed

stranger_no-IsOperator : ¬ IsOperator policy stranger.actor
unfolding with_operator_uid deny_by_default contains insert
stranger_no-IsOperator (inl h) = cc
stranger_no-IsOperator (inr h) = cc

stranger_no-IsAdministrator : ¬ IsAdministrator policy stranger.actor
unfolding with_operator_uid deny_by_default contains insert
stranger_no-IsAdministrator h = ground arith

unprivileged-IsRead_example :
    IsRead idle (handle_request sample_api stranger policy 1024 start_beta (idle, host)).state.0
unprivileged-IsRead_example =
    unprivileged-IsRead inventory no_images no_storage codec links consoles now stranger policy 1024
      start_beta idle host stranger_no-IsOperator stranger_no-IsAdministrator
