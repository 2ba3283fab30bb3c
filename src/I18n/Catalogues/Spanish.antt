-- ===== src/I18n/Catalogues/Spanish.antt =====
-- internal/i18n/es.go: the Spanish catalogue.
use scuffinger.Prelude.{[], ◌∷◌}
use scuffinger.I18n.{Messages}
use scuffinger.I18n.Keys

unfoldable pub spanish : Messages
spanish =
    (Keys.msg_config_loaded, "Configuración cargada")
    ∷ (Keys.err_config_load, "Error al cargar la configuración")
    ∷ (Keys.msg_bootstrap_connecting, "Conectando a los servicios de respaldo")
    ∷ (Keys.msg_bootstrap_self_tests, "Ejecutando pruebas de inicio")
    ∷ (Keys.msg_bootstrap_tests_passed, "Todas las pruebas de inicio pasaron")
    ∷ (Keys.msg_bootstrap_health_start, "Verificaciones periódicas de salud iniciadas")
    ∷ (Keys.err_bootstrap_connect, "No se pudo conectar a los servicios requeridos")
    ∷ (Keys.err_bootstrap_self_tests, "Las pruebas de inicio fallaron")
    ∷ (Keys.msg_manager_connecting, "Conectando al servicio")
    ∷ (Keys.msg_manager_connected, "Conectado al servicio")
    ∷ (Keys.msg_manager_self_test, "Ejecutando prueba de autodiagnóstico")
    ∷ (Keys.msg_manager_self_test_passed, "Prueba de autodiagnóstico superada")
    ∷ (Keys.msg_manager_closing, "Cerrando servicios")
    ∷ (Keys.warn_manager_health_failed, "La verificación de salud falló")
    ∷ (Keys.err_manager_connect, "Error al conectar con el servicio")
    ∷ (Keys.err_manager_self_test, "La prueba de autodiagnóstico falló para el servicio")
    ∷ (Keys.err_manager_close, "Error al cerrar el servicio")
    ∷ (Keys.err_manager_shutdown, "Se produjeron errores durante el apagado")
    ∷ (Keys.msg_cache_self_test_init, "Estableciendo clave init con la marca de tiempo actual")
    ∷ (Keys.msg_cache_self_test_passed, "Prueba de autodiagnóstico de caché superada")
    ∷ (Keys.err_cache_ping, "El caché no es accesible")
    ∷ (Keys.err_cache_set_init, "Error al escribir la clave init en el caché")
    ∷ (Keys.err_cache_get_init, "Error al leer la clave init del caché")
    ∷ (Keys.err_cache_init_mismatch, "El valor de init del caché no coincide")
    ∷ (Keys.msg_db_creating_test_db, "Creando base de datos de prueba temporal")
    ∷ (Keys.msg_db_running_crud, "Ejecutando verificación CRUD")
    ∷ (Keys.msg_db_self_test_passed, "Prueba de autodiagnóstico de base de datos superada")
    ∷ (
      Keys.warn_db_drop_test_failed,
      "No se pudo eliminar la base de datos de prueba (se reintentará en el próximo inicio)",
    )
    ∷ (Keys.err_db_connect, "La base de datos no es accesible")
    ∷ (Keys.err_db_ping, "La base de datos no respondió al ping")
    ∷ (Keys.err_db_create_testdb, "Error al crear la base de datos de prueba")
    ∷ (Keys.err_db_connect_testdb, "Error al conectar con la base de datos de prueba")
    ∷ (Keys.err_db_crud, "La verificación CRUD de la base de datos falló")
    ∷ (Keys.err_db_create_table, "Error al crear la tabla de prueba")
    ∷ (Keys.err_db_insert, "Error al insertar el registro de prueba")
    ∷ (Keys.err_db_read, "Error al leer el registro de prueba")
    ∷ (Keys.err_db_read_mismatch, "El valor del registro de prueba no coincide con lo esperado")
    ∷ (Keys.err_db_update, "Error al actualizar el registro de prueba")
    ∷ (
      Keys.err_db_read_after_update,
      "Error al leer el registro de prueba después de la actualización",
    )
    ∷ (Keys.err_db_update_mismatch, "El valor del registro actualizado no coincide con lo esperado")
    ∷ (Keys.msg_server_starting, "Servidor HTTP iniciando")
    ∷ (Keys.msg_server_shutdown, "Apagando el servidor HTTP")
    ∷ (Keys.msg_server_stopped, "El servidor HTTP se detuvo correctamente")
    ∷ (Keys.msg_server_routes, "Rutas registradas")
    ∷ (Keys.err_server_listen, "El servidor HTTP encontró un error")
    ∷ (Keys.err_server_shutdown, "El servidor HTTP fue forzado a apagarse")
    ∷ (Keys.msg_health_ready, "Todos los servicios están saludables")
    ∷ (Keys.msg_health_not_ready, "Uno o más servicios no están listos")
    ∷ (Keys.msg_gh_connecting, "Conectando a la API de GitHub")
    ∷ (Keys.msg_gh_connected, "Conectado a la API de GitHub")
    ∷ (Keys.msg_gh_auth_token, "Autenticando con token de acceso personal")
    ∷ (Keys.msg_gh_auth_app, "Autenticando como aplicación de GitHub")
    ∷ (Keys.msg_gh_self_test_passed, "Prueba de autodiagnóstico de GitHub superada")
    ∷ (Keys.msg_gh_rate_remaining, "Estado del límite de tasa de la API de GitHub")
    ∷ (Keys.warn_gh_rate_low, "El límite de tasa de la API de GitHub está bajo")
    ∷ (
      Keys.err_gh_not_configured,
      "GitHub no está configurado — establezca un token o credenciales de aplicación",
    )
    ∷ (Keys.err_gh_auth, "La autenticación de GitHub falló")
    ∷ (Keys.err_gh_read_key, "Error al leer el archivo de clave privada de la aplicación de GitHub")
    ∷ (Keys.err_gh_parse_key, "Error al analizar la clave privada de la aplicación de GitHub")
    ∷ (
      Keys.err_gh_install_token,
      "Error al obtener el token de instalación de la aplicación de GitHub",
    )
    ∷ (Keys.err_gh_self_test, "La prueba de autodiagnóstico de GitHub falló")
    ∷ (Keys.err_gh_rate_limit, "Límite de tasa de la API de GitHub demasiado bajo")
    ∷ (Keys.err_gh_fetch_user, "Error al obtener el usuario de GitHub")
    ∷ (Keys.err_gh_fetch_org, "Error al obtener la organización de GitHub")
    ∷ (Keys.err_gh_fetch_repo, "Error al obtener el repositorio de GitHub")
    ∷ (Keys.err_gh_fetch_branches, "Error al obtener las ramas del repositorio")
    ∷ (Keys.err_gh_fetch_workflows, "Error al obtener los flujos de trabajo del repositorio")
    ∷ (Keys.err_gh_fetch_runs, "Error al obtener las ejecuciones del flujo de trabajo")
    ∷ (Keys.err_gh_fetch_rate_limit, "Error al obtener el límite de tasa de GitHub")
    ∷ (Keys.err_gh_invalid_workflow, "ID de flujo de trabajo no válido")
    ∷ (Keys.msg_gh_collector_starting, "Iniciando el recolector de repositorios de GitHub")
    ∷ (Keys.msg_gh_collector_tick, "Ejecutando ciclo de recolección de GitHub")
    ∷ (Keys.msg_gh_collector_repo, "Recolectando datos del repositorio")
    ∷ (Keys.msg_gh_collector_stopped, "Recolector de repositorios de GitHub detenido")
    ∷ (Keys.msg_gh_collector_passed, "Autotest del recolector de GitHub superado")
    ∷ (Keys.msg_gh_collector_annotations, "Anotaciones recopiladas para el trabajo fallido")
    ∷ (Keys.msg_gh_collector_lock_acquired, "Bloqueo de recolección adquirido para el repositorio")
    ∷ (Keys.msg_gh_collector_lock_skipped, "Repositorio omitido (otra instancia tiene el bloqueo)")
    ∷ (
      Keys.warn_gh_collector_lock_error,
      "No se pudo adquirir el bloqueo distribuido (continuando de todos modos)",
    )
    ∷ (Keys.err_gh_collector_fetch_repo, "Error al obtener los metadatos del repositorio")
    ∷ (Keys.err_gh_collector_fetch_runs, "Error al obtener las ejecuciones del flujo de trabajo")
    ∷ (Keys.err_gh_collector_fetch_jobs, "Error al obtener los trabajos del flujo de trabajo")
    ∷ (Keys.err_gh_collector_fetch_annotations, "Error al obtener las anotaciones del check-run")
    ∷ (Keys.err_gh_collector_no_repos, "No hay repositorios configurados para monitorear")
    ∷ (Keys.err_gh_collector_parse_repo, "Formato de repositorio inválido (esperado: owner/repo)")
    ∷ (Keys.msg_auth_device_prompt, "Ingrese el código en la URL para autenticarse")
    ∷ (Keys.msg_auth_polling, "Esperando autorización de GitHub…")
    ∷ (Keys.msg_auth_success, "Autenticado exitosamente con GitHub")
    ∷ (Keys.msg_auth_logged_out, "Credenciales de GitHub eliminadas")
    ∷ (Keys.msg_auth_status_logged_in, "Conectado a GitHub")
    ∷ (
      Keys.msg_auth_status_no_token,
      "No conectado — ejecute 'scuffinger github auth' para autenticarse",
    )
    ∷ (Keys.msg_auth_token_from_vault, "Usando token de GitHub desde la bóveda del sistema")
    ∷ (
      Keys.err_auth_no_client_id,
      "github.client_id debe estar configurado para el inicio de sesión OAuth",
    )
    ∷ (Keys.err_auth_device_code, "Error al iniciar el flujo de dispositivo de GitHub")
    ∷ (Keys.err_auth_poll, "Error al completar la autorización de GitHub")
    ∷ (Keys.err_auth_save_token, "Error al guardar el token en la bóveda del sistema")
    ∷ (Keys.err_auth_verify_token, "El token almacenado ya no es válido")
    ∷ (Keys.cmd_root_short, "Scuffinger — un servicio ligero de monitoreo de GitHub")
    ∷ (
      Keys.cmd_root_long,
      "Scuffinger es un servicio ligero para monitorear repositorios, flujos de trabajo y métricas de GitHub. Construido con Cobra, Viper y Gin.",
    )
    ∷ (Keys.cmd_version_short, "Mostrar el número de versión")
    ∷ (
      Keys.cmd_version_long,
      "Muestra la versión actual de la aplicación scuffinger, incluyendo información de compilación cuando esté disponible.",
    )
    ∷ (Keys.cmd_serve_short, "Iniciar el servidor HTTP")
    ∷ (
      Keys.cmd_serve_long,
      "Inicia el servidor HTTP Gin con verificaciones de salud, métricas de Prometheus y endpoints de la API de GitHub. El servidor se conecta a todos los servicios de respaldo configurados al iniciar.",
    )
    ∷ (Keys.cmd_github_short, "Autenticación y estado de GitHub")
    ∷ (
      Keys.cmd_github_long,
      "Gestionar la autenticación OAuth de GitHub. Use subcomandos para iniciar sesión mediante flujo de dispositivo, verificar el estado de autenticación o eliminar credenciales almacenadas.",
    )
    ∷ (Keys.cmd_github_auth_short, "Autenticarse con GitHub usando OAuth")
    ∷ (
      Keys.cmd_github_auth_long,
      "Inicia el flujo de dispositivo OAuth de GitHub. Recibirá un código único para ingresar en github.com/login/device. Una vez autorizado, el token se almacena de forma segura en la bóveda del sistema.",
    )
    ∷ (Keys.cmd_github_status_short, "Mostrar el estado de autenticación actual")
    ∷ (
      Keys.cmd_github_status_long,
      "Muestra el estado actual de autenticación de GitHub, incluyendo si las credenciales están almacenadas en el archivo de configuración, variables de entorno o la bóveda del sistema.",
    )
    ∷ (Keys.cmd_github_logout_short, "Eliminar las credenciales de GitHub almacenadas")
    ∷ (
      Keys.cmd_github_logout_long,
      "Elimina cualquier token OAuth de GitHub almacenado en la bóveda del sistema. No afecta a los tokens configurados mediante archivo de configuración o variables de entorno.",
    )
    ∷ (Keys.cmd_github_monitor_short, "Iniciar el recolector de repositorios de GitHub")
    ∷ (
      Keys.cmd_github_monitor_long,
      "Inicia el recolector de GitHub en segundo plano que obtiene periódicamente metadatos de repositorios, ejecuciones de flujos de trabajo y tiempos de pasos de jobs. Expone endpoints de salud y métricas Prometheus, pero no rutas de proxy API. Diseñado para ejecutarse como un proceso separado junto al servidor API.",
    )
    ∷ (Keys.cmd_flag_config, "Ruta al archivo de configuración")
    ∷ []
