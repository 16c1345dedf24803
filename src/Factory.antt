-- ===== src/Factory.antt =====
-- The constructors of pkg/validator/http_handler_factory.go and pkg/mutator/http_handler_factory.go.
use azure_admission_controll.Result.{Result, ok, ◌>>◌}
use azure_admission_controll.Handler.{Dependency, check_given}

-- Both packages declare these two types alike.
pub record HttpHandlerFactory : Type 0 where
  pub ctrl_reader : Dependency
  pub ctrl_client : Dependency
  pub logger : Dependency

pub record HttpHandlerFactoryConfig : Type 0 where
  pub ctrl_reader : Dependency
  pub ctrl_client : Dependency
  pub logger : Dependency

unfoldable pub new_validator_http_handler_factory :
    HttpHandlerFactoryConfig → Result HttpHandlerFactory
new_validator_http_handler_factory config = do
  check_given config.ctrl_reader
  check_given config.ctrl_client
  check_given config.logger
  ok (record {
    ctrl_reader = config.ctrl_reader;
    ctrl_client = config.ctrl_client;
    logger = config.logger;
  })

unfoldable pub new_mutator_http_handler_factory :
    HttpHandlerFactoryConfig → Result HttpHandlerFactory
new_mutator_http_handler_factory config = do
  check_given config.ctrl_reader
  check_given config.ctrl_client
  check_given config.logger
  ok (record {
    ctrl_reader = config.ctrl_reader;
    ctrl_client = config.ctrl_client;
    logger = config.logger;
  })
